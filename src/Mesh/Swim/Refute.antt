-- ===== src/Mesh/Swim/Refute.antt =====
-- swim.rs: how a node answers claims about itself.
use beam_socket.Prelude.{
  ℕ, ◌+◌, ◌^◌, ◌≡◌, ◌≢◌, ◌≤◌, ◌<◌, ◌⊎◌, refl, sym, ap, Option, none, some, [], ◌∷◌, ◌++◌, arith,
  true, false, ◌-◌,
}
use beam_socket.Prelude.Maps.{lookup}
use beam_socket.Mesh.Swim.Types.{
  MState, alive, suspect, dead, is_state, precedence, Update, Member, Membership, self_update,
}
use beam_socket.Mesh.Swim.Gossip.{enqueue, trim, without}
use beam_socket.Mesh.Swim.{merge, merge_self, merge_peer, accepts}
use beam_socket.Mesh.Swim.Standing.{rank, rank_of, standing, standing-merge, merge-self_id}

not_alive : (s : MState) → s ≢ alive → is_state alive s ≡ false
not_alive alive h = absurd (h refl)
not_alive suspect h = refl
not_alive dead h = refl

-- A claim that this node is suspected or dead, at its incarnation or a later one but not the last,
-- is refuted: the node's incarnation becomes the claim's plus one, its table is as before, and the
-- fact that it is alive at that incarnation is the last entry of the gossip, under the full
-- budget.
pub merge_refutes :
    (m : Membership) (u : Update) (r now : ℕ)
    → u.id ≡ m.self_id
    → u.state ≢ alive
    → m.self_inc ≤ u.inc
    → u.inc + 1 < 2 ^ 32
    → let m' = (merge m u r now).0 in
      (m'.self_inc ≡ u.inc + 1)
      × ((merge m u r now).1 ≡ true)
      × (m'.members ≡ m.members)
      × (m'.gossip ≡ trim (without m.self_id m.gossip ++ ((self_update m', r) ∷ [])))
unfolding merge merge_self enqueue self_update
merge_refutes m u r now self gone late small = ground (arith, not_alive u.state gone)

-- A claim that this node is alive, or one at an incarnation below its own, changes nothing at all.
pub merge_ignores :
    (m : Membership) (u : Update) (r now : ℕ)
    → u.id ≡ m.self_id
    → (u.state ≡ alive) ⊎ (u.inc < m.self_inc)
    → merge m u r now ≡ (m, false)
unfolding merge merge_self
merge_ignores m u r now self old = ground arith

accepts_low :
    (held : Option Member) (v : Update) → rank v.inc v.state ≤ rank_of held → accepts held v ≡ false
unfolding accepts precedence
accepts_low none v low = absurd (omega arith)
accepts_low (some x) v low = ground arith

-- What is not above what a node holds of another changes nothing.
merge_stale :
    (m : Membership) (v : Update) (r now : ℕ)
    → v.id ≢ m.self_id
    → rank v.inc v.state ≤ standing m v.id
    → merge m v r now ≡ (m, false)
unfolding merge merge_peer
merge_stale m v r now other low =
    let refused : accepts (lookup v.id m.members) v ≡ false =
      accepts_low (lookup v.id m.members) v low in
    ground (arith, other, refused)

wrapped :
    (m : Membership) (u : Update) (r now : ℕ)
    → u.id ≡ m.self_id
    → u.state ≡ dead
    → m.self_inc ≤ u.inc
    → u.inc + 1 ≡ 2 ^ 32
    → ((merge m u r now).1 ≡ true) × ((merge m u r now).0.self_inc ≡ 0)
unfolding merge merge_self enqueue
wrapped m u r now self gone late top = ground arith

-- Where two nodes have merged the claim that the one of them is dead at the last incarnation, and that one
-- refutes it: the other holds the refuting node at the last incarnation and dead, or above that, and when the
-- refutation reaches it, takes nothing over and changes nothing at all.
pub refuted-stays_dead :
    (m p : Membership) (u : Update) (r now r' now' later_r later : ℕ)
    → p.self_id ≢ m.self_id
    → u.id ≡ m.self_id
    → u.state ≡ dead
    → m.self_inc ≤ u.inc
    → u.inc + 1 ≡ 2 ^ 32
    → let (refuted, bumped) = merge m u r now in
      let peer = (merge p u r' now').0 in
      (bumped ≡ true)
      × (rank (2 ^ 32 - 1) dead ≤ standing peer m.self_id)
      × (merge peer (self_update refuted) later_r later ≡ (peer, false))
unfolding self_update precedence
refuted-stays_dead m p u r now r' now' later_r later other self gone late top =
    let (bumped, zeroed) = wrapped m u r now self gone late top in
    let peer = (merge p u r' now').0 in
    let mine = merge-self_id m u r now in
    let held : rank (2 ^ 32 - 1) dead ≤ standing peer m.self_id =
      ground (arith, standing-merge p u r' now' m.self_id (λ e. other (sym e))) in
    (
      bumped,
      held,
      merge_stale peer (self_update (merge m u r now).0) later_r later
          (ground (arith, mine, merge-self_id p u r' now', other))
          (omega (arith, held, zeroed, ap (standing peer) mine)),
    )

-- Short of the wrap, no update lowers the incarnation, and a claim of this node's end is passed.
pub merge-self_inc :
    (m : Membership) (u : Update) (r now : ℕ)
    → u.inc + 1 < 2 ^ 32
    → m.self_inc ≤ (merge m u r now).0.self_inc
unfolding merge merge_self merge_peer enqueue
merge-self_inc m u r now small = ground arith

pub merge_passes :
    (m : Membership) (u : Update) (r now : ℕ)
    → u.inc + 1 < 2 ^ 32
    → u.id ≡ m.self_id
    → u.state ≢ alive
    → u.inc < (merge m u r now).0.self_inc
unfolding merge merge_self merge_peer enqueue
merge_passes m u r now small self gone = ground (arith, not_alive u.state gone)
