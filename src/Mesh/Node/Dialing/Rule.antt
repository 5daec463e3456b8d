-- ===== src/Mesh/Node/Dialing/Rule.antt =====
-- node.rs: the rule by which a node dials.
use beam_socket.Prelude.{
  ◌⊎◌, sym, ℕ, ◌≡◌, ◌≢◌, ◌<◌, ◌∙◌, none, refl, ap, true, false, ◌&&◌, List, [], ◌∷◌, arith,
  Bool-cases, inl, inr,
}
use mathlib.Core.List.{Memᴰ}
use mathlib.Core.List.Memᴰ.{head, tail}
use beam_socket.Prelude.Maps.{Map, lookup}
use beam_socket.Prelude.Keys.{nat_key, contains, same}
use beam_socket.Mesh.Addr.{SocketAddr}
use beam_socket.Mesh.Swim.Types.{MState, alive, suspect, Update, dead, is_state, table}
use beam_socket.Mesh.Node.{MeshNode}
use beam_socket.Mesh.Node.Loops.{addr_key, addrs_of, is_dialed, dial_targets, keys}
use beam_socket.Mesh.Node.Dialing.{is_open, has_dialed, dial_targets_has}

lookup-keys : {V : Type 0} (id : ℕ) (m : Map V) → contains id (keys m) ≡ false → lookup id m ≡ none
unfolding contains keys lookup
lookup-keys id [] e = refl
lookup-keys id ((k, v) ∷ m) e = ground (arith, lookup-keys id m, e)

keys-lookup : {V : Type 0} (id : ℕ) (m : Map V) → lookup id m ≡ none → contains id (keys m) ≡ false
unfolding contains keys lookup
keys-lookup id [] e = refl
keys-lookup id ((k, v) ∷ m) e = ground (arith, keys-lookup id m, e)

-- The node has no link to the member and does not deny it.
abbrev pub IsFree : MeshNode → Update → Type 0
IsFree n u = (lookup u.id n.links ≡ none) × (contains u.id n.deny ≡ false)

-- A seed that is neither the node's own address nor that of a member that is linked or denied.
abbrev pub IsSeed : MeshNode → SocketAddr → Type 0
IsSeed n a =
    (contains a n.seeds ≡ true)
    × (a ≢ n.addr)
    × ((u : Update) → Memᴰ u (table n.membership) → u.addr ≡ a → IsFree n u)

-- A member with a lower id that is not dead, linked or denied.
abbrev pub IsLower : MeshNode → SocketAddr → Type 0
IsLower n a =
    (u : Update) × Memᴰ u (table n.membership)
    × (u.addr ≡ a)
    × (u.id < n.self_id)
    × (u.state ≢ dead)
    × IsFree n u

none_with :
    (ids : List ℕ) (us : List Update) (a : SocketAddr)
    → contains a (addrs_of ids us) ≡ false
    → (u : Update) → Memᴰ u us
    → u.addr ≡ a
    → contains u.id ids ≡ false
unfolding contains addrs_of
none_with ids [] a e u there at = elim there [ ]
none_with ids (v ∷ us) a e u (head is) at =
    let here : same v.addr a ≡ true =
      ap (λ w. same w.addr a) (sym is) ∙ ap (λ b. same b a) at ∙ addr_key.same_refl a in
    let mine : contains v.id ids ≡ false = ground (arith, e, here) in
    ap (λ w. contains w.id ids) is ∙ mine
none_with ids (v ∷ us) a e u (tail there) at = none_with ids us a (ground (arith, e)) u there at

with_none :
    (ids : List ℕ) (us : List Update) (a : SocketAddr)
    → ((u : Update) → Memᴰ u us → u.addr ≡ a → contains u.id ids ≡ false)
    → contains a (addrs_of ids us) ≡ false
unfolding contains addrs_of
with_none ids [] a free = refl
with_none ids (v ∷ us) a free =
    let rest = with_none ids us a (λ u there at. free u (tail there) at) in
    elim (Bool-cases (same v.addr a)) [
      | inl e ↦
          let this = free v (head refl) (addr_key.same→eq v.addr a e) in ground (arith, this, rest)
      | inr e ↦ ground (arith, e, rest)
    ]

not_dead : (s : MState) → is_state dead s ≡ false → s ≢ dead
not_dead alive e is = cc is
not_dead suspect e is = cc is
not_dead dead e is = cc e

is_dead : (s : MState) → s ≢ dead → is_state dead s ≡ false
is_dead alive h = refl
is_dead suspect h = refl
is_dead dead h = absurd (h refl)

-- A member of this list with this address is dialed.
abbrev IsDialed : ℕ → List ℕ → List ℕ → List Update → SocketAddr → Type 0
IsDialed self_id linked denied us a =
    (u : Update) × Memᴰ u us
    × (u.addr ≡ a)
    × (u.id < self_id)
    × (u.state ≢ dead)
    × (contains u.id linked ≡ false)
    × (contains u.id denied ≡ false)

has_dialed-IsDialed :
    (self_id : ℕ) (linked denied : List ℕ) (us : List Update) (a : SocketAddr)
    → has_dialed self_id linked denied us a ≡ true
    → IsDialed self_id linked denied us a
unfolding has_dialed
has_dialed-IsDialed self_id linked denied [] a e = absurd (cc e)
has_dialed-IsDialed self_id linked denied (u ∷ us) a e =
    elim (Bool-cases (is_dialed self_id linked denied u && same u.addr a)) [
      | inl d ↦ (
        u,
        head refl,
        addr_key.same→eq u.addr a (ground (arith, d)),
        ground (arith, d),
        not_dead u.state (ground (arith, d)),
        ground (arith, d),
        ground (arith, d),
      )
      | inr d ↦
          let (v, there, at, lower, lives, unlinked, undenied) =
            has_dialed-IsDialed self_id linked denied us a (ground (arith, e, d)) in
          (v, tail there, at, lower, lives, unlinked, undenied)
    ]

IsDialed-has_dialed :
    (self_id : ℕ) (linked denied : List ℕ) (us : List Update) (a : SocketAddr) (u : Update)
    → Memᴰ u us
    → u.addr ≡ a
    → is_dialed self_id linked denied u ≡ true
    → has_dialed self_id linked denied us a ≡ true
unfolding has_dialed
IsDialed-has_dialed self_id linked denied [] a u there at d = elim there [ ]
IsDialed-has_dialed self_id linked denied (v ∷ us) a u (head is) at d =
    let here : same v.addr a ≡ true =
      ap (λ w. same w.addr a) (sym is) ∙ ap (λ b. same b a) at ∙ addr_key.same_refl a in
    let mine : is_dialed self_id linked denied v ≡ true =
      ap (is_dialed self_id linked denied) (sym is) ∙ d in
    ground (arith, here, mine)
IsDialed-has_dialed self_id linked denied (v ∷ us) a u (tail there) at d =
    ground (arith, IsDialed-has_dialed self_id linked denied us a u there at d)

module _ (n : MeshNode) (a : SocketAddr) where
  seed_open :
      a ≢ n.addr
      → ((u : Update) → Memᴰ u (table n.membership) → u.addr ≡ a → IsFree n u)
      → is_open n.addr
          (addrs_of (keys n.links) (table n.membership))
          (addrs_of n.deny (table n.membership))
          a
        ≡ true
  seed_open other free =
      let linked =
        with_none (keys n.links) (table n.membership) a
          (λ u there at. keys-lookup u.id n.links (free u there at).0) in
      let denied = with_none n.deny (table n.membership) a (λ u there at. (free u there at).1) in
      elim (Bool-cases (same a n.addr)) [
        | inl e ↦ absurd (other (addr_key.same→eq a n.addr e))
        | inr e ↦ ground (arith, linked, denied, e)
      ]

  open_seed :
      is_open n.addr
          (addrs_of (keys n.links) (table n.membership))
          (addrs_of n.deny (table n.membership))
          a
        ≡ true
      → (a ≢ n.addr) × ((u : Update) → Memᴰ u (table n.membership) → u.addr ≡ a → IsFree n u)
  open_seed e = (
    λ is. absurd (cc (sym (ap (same a) is) ∙ addr_key.same_refl a, own)),
    λ u there at. (
      lookup-keys u.id n.links
          (none_with (keys n.links) (table n.membership) a (ground (arith, e)) u there at),
      none_with n.deny (table n.membership) a (ground (arith, e)) u there at,
    ),
  )
    where
      own : same a n.addr ≡ false
      own = ground (arith, e)

-- A node dials an address exactly if it is a seed that is neither the node's own address nor that of a
-- member that is linked or denied, or the address of a member with a lower id than the node's that is not
-- dead, linked or denied.
pub dial_targets_lem :
    (n : MeshNode) (a : SocketAddr)
    → (contains a (dial_targets n) ≡ true → IsSeed n a ⊎ IsLower n a)
      × (IsSeed n a ⊎ IsLower n a → contains a (dial_targets n) ≡ true)
dial_targets_lem n a = (to, from)
  where
    from : IsSeed n a ⊎ IsLower n a → contains a (dial_targets n) ≡ true
    from (inl (listed, other, free)) =
        dial_targets_has n a ∙ ground (arith, listed, seed_open n a other free)
    from (inr (u, there, at, lower, lives, (unlinked, undenied))) =
        let free = keys-lookup u.id n.links unlinked in
        let alive = is_dead u.state lives in
        let dialed =
          IsDialed-has_dialed n.self_id (keys n.links) n.deny (table n.membership) a u there at
            (ground (arith, lower, alive, free, undenied)) in
        dial_targets_has n a ∙ ground (arith, dialed)

    to : contains a (dial_targets n) ≡ true → IsSeed n a ⊎ IsLower n a
    to e = elim (Bool-cases (has_dialed n.self_id (keys n.links) n.deny (table n.membership) a)) [
      | inl d ↦
          let (u, there, at, lower, lives, unlinked, undenied) =
            has_dialed-IsDialed n.self_id (keys n.links) n.deny (table n.membership) a d in
          inr (u, there, at, lower, lives, (lookup-keys u.id n.links unlinked, undenied))
      | inr d ↦
          let has = sym (dial_targets_has n a) ∙ e in
          let (other, free) = open_seed n a (ground (arith, has, d)) in
          inl (ground (arith, has, d), other, free)
    ]
