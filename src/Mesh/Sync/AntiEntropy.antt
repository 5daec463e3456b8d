-- ===== src/Mesh/Sync/AntiEntropy.antt =====
-- membership_sync.rs: one round of anti-entropy, a digest and its answer.
use beam_socket.Prelude.{
  ℕ, ◌≤◌, ◌≡◌, ◌≢◌, refl, Option, none, some, List, [], ◌∷◌, ◌++◌, ◌==◌, if◌then◌else◌, max, arith,
}
use beam_socket.Prelude.Maps.{Map, lookup, insert, Fresh, Distinct, lookup-insert}
use beam_socket.Mesh.Swim.Types.{
  alive, precedence, Update, Member, Membership, full_state, updates_of, self_update,
}
use beam_socket.Mesh.Swim.Standing.{rank, rank_of, standing, loudest, standing-merge_all}
use beam_socket.Mesh.Swim.Invariant.{IsValid}
use beam_socket.Mesh.Swim.{merge_all}
use beam_socket.Mesh.Sync.{
  MembershipMsg, apply, build_digest, digest_entries, collect, newer, gossip_unless_empty,
}

-- The highest incarnation that a list of updates, or of digest entries, knows of a node, as the least
-- number that a table standing at that incarnation has; zero where nothing is known.
abbrev pub known : ℕ → List Update → ℕ
known id [] = 0
known id (u ∷ us) = max (if u.id == id then rank u.inc alive else 0) (known id us)

abbrev listed : ℕ → List (ℕ × ℕ) → ℕ
listed id [] = 0
listed id ((j, inc) ∷ es) = max (if j == id then rank inc alive else 0) (listed id es)

abbrev held_inc : Option ℕ → ℕ
held_inc none = 0
held_inc (some inc) = rank inc alive

listed-digest_entries : (id : ℕ) (us : List Update) → listed id (digest_entries us) ≡ known id us
unfolding digest_entries
listed-digest_entries id [] = refl
listed-digest_entries id (u ∷ us) = omega (arith, listed-digest_entries id us)

-- The map of a digest knows no more than its entries.
collect-le :
    (id : ℕ) (acc : Map ℕ) (es : List (ℕ × ℕ))
    → held_inc (lookup id (collect acc es)) ≤ max (held_inc (lookup id acc)) (listed id es)
unfolding collect
collect-le id acc [] = omega arith
collect-le id acc ((j, inc) ∷ es) =
    ground (arith, collect-le id (insert j inc acc) es, lookup-insert j id inc acc)

-- What the digest already knows, and what the answer adds, cover the whole.
known-newer :
    (id : ℕ) (peer : Map ℕ) (us : List Update)
    → known id us ≤ max (held_inc (lookup id peer)) (loudest id (newer peer us))
unfolding newer precedence
known-newer id peer [] = omega arith
known-newer id peer (u ∷ us) = ground (arith, known-newer id peer us)

known-append :
    (id : ℕ) (us vs : List Update) → known id (us ++ vs) ≡ max (known id us) (known id vs)
known-append id [] vs = omega arith
known-append id (u ∷ us) vs = omega (arith, known-append id us vs)

known-Fresh : (id : ℕ) (ms : Map Member) → Fresh id ms → known id (updates_of ms) ≡ 0
unfolding updates_of
known-Fresh id [] f = refl
known-Fresh id ((j, h) ∷ ms) f = ground (arith, known-Fresh id ms f.1)

known-updates_of :
    (id : ℕ) (ms : Map Member) → Distinct ms → known id (updates_of ms) ≤ rank_of (lookup id ms)
unfolding updates_of lookup precedence
known-updates_of id [] d = omega arith
known-updates_of id ((j, h) ∷ ms) d =
    ground (arith, known-updates_of id ms d.1, known-Fresh j ms d.0)

known-full_state :
    (n : Membership) (id : ℕ) → IsValid n → id ≢ n.self_id → known id (full_state n) ≤ standing n id
unfolding full_state self_update precedence
known-full_state n id v other = ground (
  arith,
  known-append id (updates_of n.members)
      (record { id = n.self_id; addr = n.self_addr; state = alive; inc = n.self_inc } ∷ []),
  known-updates_of id n.members v.keys,
)

-- What `n` holds after it sent its digest to `m` and took the answer, if there was one.
take_answer : Membership → Option MembershipMsg → ℕ → ℕ → Membership
take_answer n none r now = n
take_answer n (some msg) r now = (apply msg n r now).0

pub exchange : Membership → Membership → ℕ → ℕ → Membership
unfolding take_answer
exchange n m r now = take_answer n (apply (build_digest n) m r now).1 r now

exchange_lem :
    (n m : Membership) (r now : ℕ)
    → exchange n m r now
      ≡ merge_all n (newer (collect [] (digest_entries (full_state n))) (full_state m)) r now
unfolding exchange apply build_digest merge_all
exchange_lem n m r now = on (newer (collect [] (digest_entries (full_state n))) (full_state m))
  where
    on : (us : List Update) → take_answer n (gossip_unless_empty us) r now ≡ merge_all n us r now
    on [] = refl
    on (u ∷ us) = refl

-- After one exchange of a digest and its answer, the valid table of the node that asked stands,
-- for every other node, at an incarnation as high as any that its partner's full state has for it.
pub exchange_catches_up :
    (n m : Membership) (r now id : ℕ)
    → IsValid n
    → id ≢ n.self_id
    → known id (full_state m) ≤ standing (exchange n m r now) id
unfolding full_state lookup
exchange_catches_up n m r now id v other =
    let es = digest_entries (full_state n) in
    rw (exchange_lem n m r now) (
      omega (
        arith,
        known-newer id (collect [] es) (full_state m),
        collect-le id [] es,
        listed-digest_entries id (full_state n),
        known-full_state n id v other,
        standing-merge_all n (newer (collect [] es) (full_state m)) r now id other,
      ))
