-- ===== src/Mesh/Swim/Probing/Targets.antt =====
-- swim.rs: a probe goes to a member that is not dead, and a round reaches every one of them.
use beam_socket.Prelude.{
  ◌⊎◌, ℕ, zero, suc, ◌≡◌, ◌≢◌, ◌<◌, refl, sym, List, [], ◌∷◌, arith, true, Bool, Bool-cases, leb,
  ◌==◌, length, inl, inr, none, some,
}
use beam_socket.Prelude.Maps.{lookup-Fresh, Map, lookup, Distinct}
use mathlib.Core.List.{nil≢cons, Mem-prop, Perm, Mem, mem-cons, not-mem-nil}
use mathlib.Core.List.Perm
use mathlib.Core.Logic.Or
use beam_socket.Mesh.Rng.{shuffle, shuffle-perm}
use beam_socket.Mesh.Swim.Types.{dead, is_state, Member, Membership, addr_of}
use beam_socket.Mesh.Swim.Probing.{
  live_ids, contains, retain, get_elem?, next_round, next_probe_target,
}

Bool-set : (a b : Bool) → IsProp (a ≡ b)
Bool-set = hlevel

contains-mem : (x : ℕ) (xs : List ℕ) → Mem x xs → contains xs x ≡ true
contains-mem x [] h = absurd (not-mem-nil h)
contains-mem x (y ∷ ys) h =
    Or.elim (Bool-set _ _) (mem-cons.0 h) (λ e. ground arith)
      (λ k. ground (arith, contains-mem x ys k))

mem-contains : (x : ℕ) (xs : List ℕ) → contains xs x ≡ true → Mem x xs
mem-contains x [] h = absurd (cc h)
mem-contains x (y ∷ ys) h = elim (Bool-cases (y == x)) [
  | inl e ↦ mem-cons.1 (Or.inl (ground arith))
  | inr e ↦ mem-cons.1 (Or.inr (mem-contains x ys (ground arith)))
]

get_elem?-mem : (xs : List ℕ) (i x : ℕ) → get_elem? xs i ≡ some x → Mem x xs
get_elem?-mem [] i x h = absurd (cc h)
get_elem?-mem (y ∷ ys) zero x h = mem-cons.1 (Or.inl (ground arith))
get_elem?-mem (y ∷ ys) (suc i) x h = mem-cons.1 (Or.inr (get_elem?-mem ys i x h))

get_elem?-lt : (xs : List ℕ) (i : ℕ) → i < length xs → (x : ℕ) × (get_elem? xs i ≡ some x)
get_elem?-lt [] i h = absurd (omega arith)
get_elem?-lt (x ∷ xs) zero h = (x, refl)
get_elem?-lt (x ∷ xs) (suc i) h = get_elem?-lt xs i (omega arith)

retain-mem : (live xs : List ℕ) (x : ℕ) → Mem x (retain live xs) → Mem x live
unfolding retain
retain-mem live [] x h = absurd (not-mem-nil h)
retain-mem live (y ∷ ys) x h = elim (Bool-cases (contains live y)) [
  | inl e ↦
      Or.elim Mem-prop (mem-cons.0 (rw e at h)) (λ d. rw d (mem-contains y live e))
        (retain-mem live ys x)
  | inr e ↦ retain-mem live ys x (rw e at h)
]

-- What is live is in the table, and not dead.
live_ids-lookup :
    (ms : Map Member) (x : ℕ)
    → Distinct ms
    → contains (live_ids ms) x ≡ true
    → (held : Member) × (lookup x ms ≡ some held) × (held.state ≢ dead)
unfolding live_ids lookup
live_ids-lookup [] x d h = absurd (cc h)
live_ids-lookup ((id, m) ∷ ms) x d h = elim (Bool-cases (is_state dead m.state)) [
  | inl gone ↦
      let (held, found, up) = live_ids-lookup ms x d.1 (rw gone at h) in
      (held, ground (arith, lookup-Fresh id ms d.0), up)
  | inr up ↦ elim (Bool-cases (id == x)) [
    | inl e ↦ (m, rw e, λ g. ground arith)
    | inr e ↦
        let (held, found, up') = live_ids-lookup ms x d.1 (ground arith) in (held, rw e found, up')
  ]
]

-- The position of the next probe is in range, and what stands there is live.
next_round-in_range :
    (m : Membership) (id : ℕ) (ids : List ℕ)
    → let m' = next_round m (id ∷ ids) in
      (x : ℕ) × (get_elem? m'.probe_order m'.probe_idx ≡ some x) × Mem x (id ∷ ids)
unfolding next_round
next_round-in_range m id ids =
    elim (Bool-cases (leb (length (retain (id ∷ ids) m.probe_order)) m.probe_idx)) [
      | inl over ↦ rw over (first (shuffle m.rng (id ∷ ids)).0 (shuffle-perm m.rng (id ∷ ids)))
      | inr more ↦
          let (x, e) = get_elem?-lt (retain (id ∷ ids) m.probe_order) m.probe_idx (ground arith) in
          rw more (x, e, retain-mem (id ∷ ids) m.probe_order x (get_elem?-mem _ m.probe_idx x e))
    ]
  where
    first :
        (order : List ℕ)
        → Perm (id ∷ ids) order
        → (x : ℕ) × (get_elem? order 0 ≡ some x) × Mem x (id ∷ ids)
    first [] p = absurd (nil≢cons (sym (Perm.eq-nil p)))
    first (x ∷ xs) p = (x, refl, Perm.subset (Perm.symm p) x (mem-cons.1 (Or.inl refl)))

next_round-members : (m : Membership) (live : List ℕ) → (next_round m live).members ≡ m.members
unfolding next_round
next_round-members m live = ground arith

-- When no id stands twice in the table, a probe is made unless every member is dead, and it goes
-- to the address of a member that the table holds and that is not dead.
pub next_probe_target_lem :
    (m : Membership)
    → Distinct m.members
    → ((live_ids m.members ≡ []) × ((next_probe_target m).1 ≡ none))
      ⊎ ((id : ℕ) × (held : Member) × (lookup id m.members ≡ some held)
          × (held.state ≢ dead)
          × ((next_probe_target m).1 ≡ some (id, held.addr)))
unfolding next_probe_target addr_of
next_probe_target_lem m d = on (live_ids m.members) refl
  where
    on :
        (ls : List ℕ)
        → live_ids m.members ≡ ls
        → ((live_ids m.members ≡ []) × ((next_probe_target m).1 ≡ none))
          ⊎ ((id : ℕ) × (held : Member) × (lookup id m.members ≡ some held)
              × (held.state ≢ dead)
              × ((next_probe_target m).1 ≡ some (id, held.addr)))
    on [] e = inl (e, rw (e, next_probe_target))
    on (id ∷ ids) e =
        let (x, found, live) = next_round-in_range m id ids in
        let (held, known, up) =
          live_ids-lookup m.members x d (rw e (contains-mem x (id ∷ ids) live)) in
        inr (x, held, known, up, ground (arith, next_round-members m (id ∷ ids)))
