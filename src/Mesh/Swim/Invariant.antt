-- ===== src/Mesh/Swim/Invariant.antt =====
-- swim.rs: what every method keeps of the table and of the gossip.
use beam_socket.Prelude.{
  leb, ◌&&◌, not, ℕ, ◌≡◌, ◌≢◌, ◌≤◌, sym, ap, List, [], ◌∷◌, ◌++◌, arith, Bool-cases, ◌==◌, length,
  inl, inr, Option-cases, some,
}
use beam_socket.Mesh.Swim.{
  leb, not, is_state, accepts, Counters, merge, merge_self, merge_peer, merge_all, note_direct_ack,
  mark_suspect, evict,
}
use beam_socket.Prelude.Maps.{
  lookup-Fresh, lookup, insert, Fresh, Distinct, insert-Fresh, insert-Distinct,
}
use beam_socket.Mesh.Swim.Types.{alive, suspect, Update, Member, Membership, gossip_cap}
use beam_socket.Mesh.Swim.Gossip.{enqueue, trim, without}

-- No entry of the gossip is about `id`; no two entries are about one node.
abbrev pub Unheard : ℕ → List (Update × ℕ) → Type 0
Unheard id [] = Unit
Unheard id ((u, n) ∷ gs) = (u.id ≢ id) × Unheard id gs

abbrev pub OneEach : List (Update × ℕ) → Type 0
OneEach [] = Unit
OneEach ((u, n) ∷ gs) = Unheard u.id gs × OneEach gs

-- The node is not in its own table, no id stands there twice, and the gossip holds one fact for each
-- node at most, within its bound.
pub record IsValid (m : Membership) : Type 0 where
  pub absent : Fresh m.self_id m.members
  pub keys : Distinct m.members
  pub one_each : OneEach m.gossip
  pub bounded : length m.gossip ≤ gossip_cap

without-Unheard : (id : ℕ) (gs : List (Update × ℕ)) → Unheard id (without id gs)
unfolding without
without-Unheard id [] = tt
without-Unheard id ((u, n) ∷ gs) = ground (arith, without-Unheard id gs)

without-keeps : (id j : ℕ) (gs : List (Update × ℕ)) → Unheard j gs → Unheard j (without id gs)
unfolding without
without-keeps id j [] h = tt
without-keeps id j ((u, n) ∷ gs) h = ground (arith, without-keeps id j gs h.1)

without-OneEach : (id : ℕ) (gs : List (Update × ℕ)) → OneEach gs → OneEach (without id gs)
unfolding without
without-OneEach id [] h = tt
without-OneEach id ((u, n) ∷ gs) h =
    ground (arith, without-OneEach id gs h.1, without-keeps id u.id gs h.0)

append-Unheard :
    (id : ℕ) (gs hs : List (Update × ℕ)) → Unheard id gs → Unheard id hs → Unheard id (gs ++ hs)
append-Unheard id [] hs h k = k
append-Unheard id ((u, n) ∷ gs) hs h k = (h.0, append-Unheard id gs hs h.1 k)

append-OneEach :
    (gs : List (Update × ℕ)) (u : Update) (n : ℕ)
    → OneEach gs
    → Unheard u.id gs
    → OneEach (gs ++ ((u, n) ∷ []))
append-OneEach [] u n h k = (tt, tt)
append-OneEach ((v, i) ∷ gs) u n h k =
    (append-Unheard v.id gs ((u, n) ∷ []) h.0 (λ e. k.0 (sym e), tt), append-OneEach gs u n h.1 k.1)

trim-OneEach : (gs : List (Update × ℕ)) → OneEach gs → OneEach (trim gs)
unfolding trim
trim-OneEach [] h = tt
trim-OneEach ((u, n) ∷ gs) h = ground (arith, trim-OneEach gs h.1)

length-trim : (gs : List (Update × ℕ)) → length (trim gs) ≤ gossip_cap
unfolding trim
length-trim [] = omega arith
length-trim (g ∷ gs) = ground (arith, length-trim gs)

-- `enqueue` makes room for its fact.
enqueue-IsValid :
    (m : Membership) (u : Update) (r : ℕ)
    → Fresh m.self_id m.members
    → Distinct m.members
    → OneEach m.gossip
    → IsValid (enqueue m u r)
unfolding enqueue
enqueue-IsValid m u r absent keys one = record {
  absent = absent;
  keys = keys;
  one_each = trim-OneEach _ (
      append-OneEach (without u.id m.gossip) u r (without-OneEach u.id m.gossip one)
        (without-Unheard u.id m.gossip));
  bounded = length-trim _;
}

-- The table after an insertion for another node, whatever the new entry says.
insert-IsValid :
    (m : Membership) (id : ℕ) (held : Member) (c : Counters) (u : Update) (r : ℕ)
    → id ≢ m.self_id
    → IsValid m
    → IsValid (enqueue (record m { members = insert id held m.members; counters = c }) u r)
insert-IsValid m id held c u r other v =
    enqueue-IsValid _ u r (insert-Fresh id m.self_id held m.members (λ e. other (sym e)) v.absent)
      (insert-Distinct id held m.members v.keys) v.one_each

merge_self-IsValid :
    (m : Membership) (u : Update) (r : ℕ) → IsValid m → IsValid (merge_self m u r).0
unfolding merge_self
merge_self-IsValid m u r v =
    elim (Bool-cases (not (is_state alive u.state) && leb m.self_inc u.inc)) [
      | inl e ↦ rw e (enqueue-IsValid _ _ r v.absent v.keys v.one_each)
      | inr e ↦ rw e v
    ]

merge_peer-IsValid :
    (m : Membership) (u : Update) (r now : ℕ)
    → u.id ≢ m.self_id
    → IsValid m
    → IsValid (merge_peer m u r now).0
unfolding merge_peer
merge_peer-IsValid m u r now other v = elim (Bool-cases (accepts (lookup u.id m.members) u)) [
  | inl e ↦ rw e (insert-IsValid m u.id _ _ u r other v)
  | inr e ↦ rw e v
]

pub merge-IsValid :
    (m : Membership) (u : Update) (r now : ℕ) → IsValid m → IsValid (merge m u r now).0
unfolding merge
merge-IsValid m u r now v = elim (Bool-cases (u.id == m.self_id)) [
  | inl e ↦ rw e (merge_self-IsValid m u r v)
  | inr e ↦ rw e (merge_peer-IsValid m u r now (λ d. ground arith) v)
]

pub merge_all-IsValid :
    (m : Membership) (us : List Update) (r now : ℕ) → IsValid m → IsValid (merge_all m us r now)
unfolding merge_all
merge_all-IsValid m [] r now v = v
merge_all-IsValid m (u ∷ us) r now v =
    merge_all-IsValid (merge m u r now).0 us r now (merge-IsValid m u r now v)

-- What the table holds is not the node itself.
lookup-ne_self :
    (m : Membership) (id : ℕ) (held : Member)
    → IsValid m
    → lookup id m.members ≡ some held
    → id ≢ m.self_id
lookup-ne_self m id held v e d =
    cc (e, ap (λ k. lookup k m.members) d, lookup-Fresh m.self_id m.members v.absent)

pub note_direct_ack-IsValid :
    (m : Membership) (from r now : ℕ) → IsValid m → IsValid (note_direct_ack m from r now).0
unfolding note_direct_ack
note_direct_ack-IsValid m from r now v = elim (Option-cases (lookup from m.members)) [
  | inl e ↦ rw (e, note_direct_ack) v
  | inr (held, e) ↦
      rw (e, note_direct_ack)
        (elim (Bool-cases (is_state suspect held.state)) [
          | inl d ↦ rw d (insert-IsValid m from _ _ _ r (lookup-ne_self m from held v e) v)
          | inr d ↦ rw d v
        ])
]

pub mark_suspect-IsValid :
    (m : Membership) (target r now : ℕ) → IsValid m → IsValid (mark_suspect m target r now).0
unfolding mark_suspect
mark_suspect-IsValid m target r now v = elim (Option-cases (lookup target m.members)) [
  | inl e ↦ rw (e, mark_suspect) v
  | inr (held, e) ↦
      rw (e, mark_suspect)
        (elim (Bool-cases (is_state alive held.state)) [
          | inl d ↦ rw d (merge-IsValid m _ r now v)
          | inr d ↦ rw d v
        ])
]

pub evict-IsValid :
    (m : Membership) (us : List Update) (r now : ℕ) → IsValid m → IsValid (evict m us r now).0
unfolding evict
evict-IsValid m [] r now v = v
evict-IsValid m (u ∷ us) r now v =
    evict-IsValid (merge m u r now).0 us r now (merge-IsValid m u r now v)
