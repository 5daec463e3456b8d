-- ===== src/Mesh/Node/Race.antt =====
-- node.rs: what becomes of a peer's link when a second one to the peer is turned away.
use beam_socket.Prelude.{ℕ, ◌≡◌, ◌≢◌, refl, false, ◌||◌, none, some, arith, Bool-cases, inl, inr}
use beam_socket.Prelude.Keys.{nat_key, contains}
use beam_socket.Prelude.Maps.{lookup, remove, lookup-remove}
use beam_socket.Mesh.Frame.{Frame}
use beam_socket.Mesh.Swim.{mark_suspect}
use beam_socket.Mesh.Link.{close}
use beam_socket.Mesh.Node.{MeshNode, register, on_link_closed, send_frame, close_link}

-- A link to a peer that has one already is closed, and nothing else.
pub register_again :
    (n : MeshNode) (first second : ℕ)
    → lookup (n.handles second).negotiated.peer_node_id n.links ≡ some first
    → register second n ≡ close_link second n
unfolding register
register_again n first second held =
    elim (Bool-cases (n.down || contains (n.handles second).negotiated.peer_node_id n.deny)) [
      | inl e ↦ rw (register, e) refl
      | inr e ↦ rw (register, e, held) refl
    ]

send_frame-none :
    (peer : ℕ) (frame : Frame) (n : MeshNode)
    → lookup peer n.links ≡ none
    → send_frame peer frame n ≡ n
unfolding send_frame
send_frame-none peer frame n e = rw (send_frame, e) refl

-- Where a node that runs is linked to a peer and registers a second link to it, the second link is closed;
-- and when its reader then ends, the node has no link to the peer any more and suspects it, and sends
-- nothing to it, though the first link is as it was.
pub register-on_link_closed :
    (now : ℕ) (n : MeshNode) (first second : ℕ)
    → n.down ≡ false
    → first ≢ second
    → lookup (n.handles second).negotiated.peer_node_id n.links ≡ some first
    → let peer = (n.handles second).negotiated.peer_node_id in
      let after = on_link_closed now peer (register second n) in
      (lookup peer after.links ≡ none)
      × (after.membership ≡ (mark_suspect n.membership peer n.retransmit now).0)
      × ((frame : Frame) → send_frame peer frame after ≡ after)
      × (after.handles first ≡ n.handles first)
      × (after.handles second ≡ close (n.handles second))
unfolding on_link_closed
register-on_link_closed now n first second running other held =
    let peer = (n.handles second).negotiated.peer_node_id in
    let gone : lookup peer (remove peer n.links) ≡ none =
      ground (arith, lookup-remove peer peer n.links) in
    rw (register_again n first second held) (
      ground (arith, gone),
      ground arith,
      λ frame.
          send_frame-none peer frame (on_link_closed now peer (close_link second n))
            (ground (arith, gone)),
      ground arith,
      ground arith,
    )
