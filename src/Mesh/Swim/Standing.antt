-- ===== src/Mesh/Swim/Standing.antt =====
-- swim.rs: the precedence of claims. What a table holds of a node, as one number that grows with the
-- incarnation first and the state second.
use mathlib.Core.List.{Perm, Permᴰ}
use mathlib.Core.Logic.{∥∥₁_elim}
use mathlib.Core.Path.{ap₂}
use native.Mathlib.Nat.{ℕ_set}
use beam_socket.Prelude.{
  ℕ, suc, ◌+◌, ◌*◌, ◌≡◌, ◌≢◌, ◌∙◌, refl, ap, Option, none, some, List, [], ◌∷◌, arith, max, ◌==◌,
  if◌then◌else◌,
}
use beam_socket.Prelude.Maps.{lookup, lookup-insert}
use beam_socket.Mesh.Swim.Types.{MState, precedence, Update, Member, Membership}
use beam_socket.Mesh.Swim.Gossip.{enqueue}
use beam_socket.Mesh.Swim.{merge, merge_self, merge_peer, merge_all, accepts}

abbrev pub rank : ℕ → MState → ℕ
rank inc state = suc (3 * inc + precedence state)

abbrev pub rank_of : Option Member → ℕ
rank_of none = 0
rank_of (some m) = rank m.inc m.state

-- Zero for a node that the table does not hold.
abbrev pub standing : Membership → ℕ → ℕ
standing m id = rank_of (lookup id m.members)

-- What one update, and a list of them, claims of the node.
abbrev pub claim : ℕ → Update → ℕ
claim id u = if u.id == id then rank u.inc u.state else 0

abbrev pub loudest : ℕ → List Update → ℕ
loudest id [] = 0
loudest id (u ∷ us) = max (claim id u) (loudest id us)

-- The number says which incarnation and which state it stands for.
pub rank-injective : (i j : ℕ) (s t : MState) → rank i s ≡ rank j t → (i ≡ j) × (s ≡ t)
unfolding precedence
rank-injective i j s t h = ground arith

pub merge-self_id :
    (m : Membership) (u : Update) (r now : ℕ) → (merge m u r now).0.self_id ≡ m.self_id
unfolding merge merge_self merge_peer enqueue
merge-self_id m u r now = ground arith

-- The test of `merge_peer` is the order of the numbers.
accepts-rank :
    (held : Option Member) (u : Update)
    → max (rank_of held) (rank u.inc u.state)
      ≡ (if accepts held u then rank u.inc u.state else rank_of held)
unfolding accepts precedence
accepts-rank none u = ground arith
accepts-rank (some m) u = ground arith

pub standing-merge :
    (m : Membership) (u : Update) (r now id : ℕ)
    → id ≢ m.self_id
    → standing (merge m u r now).0 id ≡ max (standing m id) (claim id u)
unfolding merge merge_self merge_peer enqueue
standing-merge m u r now id h = ground (
  arith,
  accepts-rank (lookup u.id m.members) u,
  lookup-insert u.id id (record { addr = u.addr; state = u.state; inc = u.inc; since = now })
      m.members,
)

pub merge_all-self_id :
    (m : Membership) (us : List Update) (r now : ℕ) → (merge_all m us r now).self_id ≡ m.self_id
unfolding merge_all
merge_all-self_id m [] r now = refl
merge_all-self_id m (u ∷ us) r now =
    merge_all-self_id (merge m u r now).0 us r now ∙ merge-self_id m u r now

-- After any updates the standing of every node but the table's own is the greatest of the standing
-- that it had and of those that the updates claim for it.
pub standing-merge_all :
    (m : Membership) (us : List Update) (r now id : ℕ)
    → id ≢ m.self_id
    → standing (merge_all m us r now) id ≡ max (standing m id) (loudest id us)
unfolding merge_all
standing-merge_all m [] r now id h = omega arith
standing-merge_all m (u ∷ us) r now id h =
    let h' : id ≢ (merge m u r now).0.self_id = λ e. h (e ∙ merge-self_id m u r now) in
    omega
      (arith, standing-merge m u r now id h, standing-merge_all (merge m u r now).0 us r now id h')

loudest-permᴰ : (id : ℕ) {us vs : List Update} → Permᴰ us vs → loudest id us ≡ loudest id vs
loudest-permᴰ id Permᴰ.nil = refl
loudest-permᴰ id (Permᴰ.cons e p) = ap₂ (λ u n. max (claim id u) n) e (loudest-permᴰ id p)
loudest-permᴰ id (Permᴰ.swap e d) = omega (arith, ap (claim id) e, ap (claim id) d)
loudest-permᴰ id (Permᴰ.trans p q) = loudest-permᴰ id p ∙ loudest-permᴰ id q

-- Take two tables that agree on the incarnation and the state of a node that is neither's own, and
-- merge the same updates into both, each in its own order, with its own retransmission count and
-- at its own time: then they agree on that node afterwards. A standing is the incarnation and then
-- the severity of the state, as one number, and 0 where the table holds nothing.
pub standing-merge_all_perm :
    (m n : Membership) {us vs : List Update} (r now r' now' id : ℕ)
    → Perm us vs
    → id ≢ m.self_id
    → id ≢ n.self_id
    → standing m id ≡ standing n id
    → standing (merge_all m us r now) id ≡ standing (merge_all n vs r' now') id
standing-merge_all_perm m n {us} {vs} r now r' now' id p h k e = omega (
  arith,
  standing-merge_all m us r now id h,
  standing-merge_all n vs r' now' id k,
  ∥∥₁_elim p (ℕ_set _ _) (loudest-permᴰ id),
)
