-- ===== src/Mesh/Swim/Vouching.antt =====
-- swim.rs: whom a direct acknowledgement is about.
use beam_socket.Prelude.{ℕ, ◌≡◌, ◌≢◌, arith, Option-cases, inl, inr, refl}
use beam_socket.Prelude.Maps.{lookup, lookup-insert}
use beam_socket.Mesh.Swim.Types.{Membership, alive}
use beam_socket.Mesh.Swim.{note_direct_ack, revive}
use beam_socket.Mesh.Swim.Gossip.{enqueue}

-- The entries of all other members stay.
pub note_direct_ack-other :
    (m : Membership) (from r now who : ℕ)
    → from ≢ who
    → lookup who (note_direct_ack m from r now).0.members ≡ lookup who m.members
unfolding note_direct_ack revive enqueue
note_direct_ack-other m from r now who other = elim (Option-cases (lookup from m.members)) [
  | inl e ↦ rw (note_direct_ack, e) refl
  | inr (held, e) ↦
      rw (note_direct_ack, e)
        (ground (
          arith,
          other,
          lookup-insert from who (record held { state = alive; since = now }) m.members,
        ))
]
