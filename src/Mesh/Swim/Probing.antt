-- ===== src/Mesh/Swim/Probing.antt =====
-- swim.rs: the choice of probe targets, `next_probe_target` and `indirect_helpers`.
pub mod Targets
use mathlib.Core.List.{Perm}
use mathlib.Core.List.Perm
use beam_socket.Prelude.{
  ℕ, zero, suc, ◌+◌, ◌-◌, ◌≡◌, ◌≢◌, ◌≤◌, ◌<◌, ◌∙◌, refl, sym, ap, List, [], ◌∷◌, ◌++◌, arith, true,
  false, not, ◌&&◌, Bool, Bool-cases, ltb, leb, ◌==◌, if◌then◌else◌, length, take, drop, All,
  length-append, inl, inr, Option-cases, Option, none, some,
}
use beam_socket.Prelude.Maps.{Map, lookup, Fresh, Distinct}
use beam_socket.Mesh.Addr.{SocketAddr}
use beam_socket.Mesh.Rng.{Rng, shuffle, shuffle-perm}
use beam_socket.Mesh.Swim.Types.{
  MState, alive, suspect, dead, is_state, Member, Membership, addr_of,
}

-- The ids of the members that are not dead.
unfoldable pub live_ids : Map Member → List ℕ
live_ids [] = []
live_ids ((id, m) ∷ ms) = if is_state dead m.state then live_ids ms else id ∷ live_ids ms

abbrev pub contains : List ℕ → ℕ → Bool
contains [] a = false
contains (x ∷ xs) a = if x == a then true else contains xs a

-- `self.probe_order.retain(|id| live.contains(id))`
unfoldable pub retain : List ℕ → List ℕ → List ℕ
retain live [] = []
retain live (x ∷ xs) = if contains live x then x ∷ retain live xs else retain live xs

abbrev pub get_elem? : List ℕ → ℕ → Option ℕ
get_elem? [] i = none
get_elem? (x ∷ xs) zero = some x
get_elem? (x ∷ xs) (suc i) = get_elem? xs i

-- The order and the position for the next probe: a new round is shuffled when the last is over.
unfoldable pub next_round : Membership → List ℕ → Membership
next_round m live =
    let kept = retain live m.probe_order in
    if leb (length kept) m.probe_idx
    then (let (order, r) = shuffle m.rng live in
        record m { probe_order = order; probe_idx = 0; rng = r })
    else record m { probe_order = kept }

-- `self.probe_order[self.probe_idx]` panics out of range, which stands as `none` here.
unfoldable pub next_probe_target : Membership → Membership × Option (ℕ × SocketAddr)
next_probe_target m = elim (live_ids m.members) [
  | [] ↦ (m, none)
  | id ∷ ids ↦
      (let m' = next_round m (id ∷ ids) in
        elim (get_elem? m'.probe_order m'.probe_idx) [
          | none ↦ (m', none)
          | some target ↦ (
            record m' { probe_idx = m'.probe_idx + 1 },
            elim (addr_of m' target) [ none ↦ none | some a ↦ some (target, a) ],
          )
        ])
]

-- The members that may relay an indirect probe, before the shuffle.
unfoldable pub helper_candidates : ℕ → Map Member → List (ℕ × SocketAddr)
helper_candidates exclude [] = []
helper_candidates exclude ((id, m) ∷ ms) =
    if not (id == exclude) && is_state alive m.state
    then (id, m.addr) ∷ helper_candidates exclude ms
    else helper_candidates exclude ms

unfoldable pub indirect_helpers : Membership → ℕ → ℕ → Membership × List (ℕ × SocketAddr)
indirect_helpers m exclude k =
    let (hs, r) = shuffle m.rng (helper_candidates exclude m.members) in
    (record m { rng = r }, take k hs)
