-- ===== src/Mesh/Sync/Refutation.antt =====
-- membership_sync.rs: a node that is told of its own death says otherwise in its very answer.
use beam_socket.Mesh.Swim.Refute.{merge_passes, merge-self_inc}
use beam_socket.Prelude.{
  ℕ, ◌+◌, ◌^◌, ◌≤◌, ◌<◌, ◌≡◌, ◌≢◌, ◌∙◌, sym, ap, true, false, some, List, [], ◌∷◌, ◌++◌, All, arith,
}
use beam_socket.Mesh.Swim.Types.{alive, Update, Membership, full_state, updates_of, self_update}
use beam_socket.Mesh.Swim.Standing.{merge-self_id, merge_all-self_id}
use beam_socket.Mesh.Swim.{merge, merge_all}
use beam_socket.Mesh.Sync.{sync, apply}

-- The incarnations are below the largest, so that a refutation does not wrap.
abbrev pub IsTame : Update → Type 0
IsTame u = u.inc + 1 < 2 ^ 32

merge_all-self_inc :
    (m : Membership) (us : List Update) (r now : ℕ)
    → All IsTame us
    → m.self_inc ≤ (merge_all m us r now).self_inc
unfolding merge_all
merge_all-self_inc m [] r now h = omega arith
merge_all-self_inc m (u ∷ us) r now h =
    omega (arith, merge-self_inc m u r now h.0, merge_all-self_inc (merge m u r now).0 us r now h.1)

-- Wherever the claim stands among the updates, the incarnation ends above it.
merge_all_refutes :
    (m : Membership) (us vs : List Update) (u : Update) (r now : ℕ)
    → All IsTame (us ++ (u ∷ vs))
    → u.id ≡ m.self_id
    → u.state ≢ alive
    → u.inc < (merge_all m (us ++ (u ∷ vs)) r now).self_inc
unfolding merge_all
merge_all_refutes m [] vs u r now h self gone = omega (
  arith,
  merge_passes m u r now h.0 self gone,
  merge_all-self_inc (merge m u r now).0 vs r now h.1,
)
merge_all_refutes m (v ∷ us) vs u r now h self gone =
    merge_all_refutes (merge m v r now).0 us vs u r now h.1 (self ∙ sym (merge-self_id m v r now))
      gone

-- A sync that asks for a reply and says, among other things, that this node is suspected or dead
-- is answered with the table and with the fact that this node is alive at a later incarnation than
-- that claim's, provided no update of the sync is at the last incarnation.
pub sync_refutes :
    (m : Membership) (us vs : List Update) (u : Update) (r now : ℕ)
    → All IsTame (us ++ (u ∷ vs))
    → u.id ≡ m.self_id
    → u.state ≢ alive
    → let m' = (apply (sync true (us ++ (u ∷ vs))) m r now).0 in
      ((apply (sync true (us ++ (u ∷ vs))) m r now).1
        ≡ some (
            sync false (
              updates_of m'.members
              ++ (record { id = m.self_id; addr = m'.self_addr; state = alive; inc = m'.self_inc }
                  ∷ []))))
      × (u.inc < m'.self_inc)
unfolding apply full_state self_update
sync_refutes m us vs u r now h self gone =
    let m' : Membership = merge_all m (us ++ (u ∷ vs)) r now in
    (
      ap
          (λ k. some (
            sync false (
              updates_of m'.members
              ++ (record { id = k; addr = m'.self_addr; state = alive; inc = m'.self_inc } ∷ []))))
          (merge_all-self_id m (us ++ (u ∷ vs)) r now),
      merge_all_refutes m us vs u r now h self gone,
    )
