-- ===== src/Core/Relay/Delivery.antt =====
-- cluster.rs with the mesh under it: what the bytes of a relay do at the node that they reach.
use beam_socket.Prelude.{
  ℕ, ◌+◌, ◌%◌, ◌^◌, ◌<◌, ◌≤◌, ◌≡◌, ◌≢◌, ◌∙◌, refl, ap, Bool, true, false, Option, none, some, List,
  [], ◌∷◌, ◌++◌, length, All, arith,
}
use beam_socket.Prelude.Bytes.{Bytes}
use beam_socket.Prelude.Keys.{nat_key, contains}
use beam_socket.Mesh.Handshake.{may_emit}
use beam_socket.Mesh.Link.{LinkHandle}
use beam_socket.Mesh.Relay.{frame_kind, relay_bytes}
use beam_socket.Mesh.Node.{MeshNode, Relayed}
use beam_socket.Mesh.Node.Relays.{hear_first, hear_first-relay_bytes}
use beam_socket.Core.Mailbox.{BackpressurePolicy, OutboundFrame}
use beam_socket.Core.Registry.{Registry}
use beam_socket.Core.Rooms.{RoomMap}
use beam_socket.Core.Identity.{UserMap}
use beam_socket.Core.Broadcast.{Handles, FanoutTarget, broadcast}
use beam_socket.Core.Relay.{
  NodeConnId, relay_kind, relay_meta, excepts_for, fan_local, deliver_local, node_excepts,
}
use beam_socket.Core.Relay.RoundTrip.{IsTarget, IsExcept, deliver_local-relay_meta}

-- Exceptions of another node's own connections are none of this node's.
excepts_for-node_excepts :
    (self_node origin : ℕ) (except : List ℕ) (remote_except : List NodeConnId)
    → origin ≢ self_node
    → excepts_for self_node (node_excepts origin except ++ remote_except)
      ≡ excepts_for self_node remote_except
unfolding excepts_for node_excepts
excepts_for-node_excepts self_node origin [] remote other = refl
excepts_for-node_excepts self_node origin (id ∷ except) remote other =
    ground (arith, excepts_for-node_excepts self_node origin except remote other)

module _ (policy : BackpressurePolicy) (hwm self_node : ℕ) (conns : Registry) (rooms : RoomMap)
    (users : UserMap) (hs : Handles) where
  abbrev handled : ℕ → Option Relayed → ℕ × (Handles × RoomMap)
  handled relay_in none = (relay_in, (hs, rooms))
  handled relay_in (some r) =
      deliver_local policy hwm self_node conns rooms users hs relay_in r.kind r.is_binary r.body

  -- The first frame that a peer sends, from the wire to the mailboxes.
  unfoldable pub deliver_bytes : ℕ → LinkHandle → MeshNode → ℕ → Bytes → ℕ × (Handles × RoomMap)
  unfolding hear_first deliver_local
  deliver_bytes now link mesh relay_in stream = handled relay_in (hear_first now link mesh stream)

  -- The bytes that another node relays for a message to a room, a user or all, with a name and fewer than
  -- 2 ^ 16 exceptions that fit the wire, come in first on a link that negotiated relays and allows their
  -- size, from a peer that is not denied. Whatever follows them, the message is fanned out to this node's
  -- connections of the target, with its bytes as they were, but for those exceptions of other nodes that
  -- name this node; the sender's own connections among the exceptions have no effect here.
  pub deliver_bytes-relay_bytes :
      (now relay_in : ℕ) (link : LinkHandle) (mesh : MeshNode) (target : FanoutTarget) (origin : ℕ)
      (except : List ℕ) (remote_except : List NodeConnId) (is_binary : Bool) (payload rest : Bytes)
      → let excepts = node_excepts origin except ++ remote_except in
        origin ≢ self_node
        → IsTarget target
        → length excepts < 2 ^ 16
        → All IsExcept excepts
        → 2 + length (relay_meta target excepts) + length payload ≤ link.negotiated.max_frame
        → link.negotiated.max_frame < 2 ^ 32
        → may_emit link.negotiated (frame_kind (relay_kind target)) ≡ true
        → contains link.negotiated.peer_node_id mesh.deny ≡ false
        → deliver_bytes now link mesh relay_in
            (relay_bytes (relay_kind target) is_binary (relay_meta target excepts) payload ++ rest)
          ≡ (
            (relay_in + 1) % 2 ^ 64,
            fan_local policy hwm self_node conns rooms users hs target remote_except is_binary
                payload,
          )
  unfolding deliver_bytes
  deliver_bytes-relay_bytes now relay_in link mesh target origin except remote b payload rest other
        k few ok fits small emits allowed =
      let excepts = node_excepts origin except ++ remote in
      let frame : OutboundFrame = record { body = payload; is_binary = b } in
      ap (handled relay_in) (
        hear_first-relay_bytes now link mesh (relay_kind target) b (relay_meta target excepts)
          payload rest fits small emits allowed)
      ∙ deliver_local-relay_meta policy hwm self_node conns rooms users hs target excepts relay_in b
          payload k few ok
      ∙ ap
          (λ (ids : List ℕ).
            let out = broadcast policy hwm frame conns rooms users target ids hs in
            ((relay_in + 1) % 2 ^ 64, (out.0, out.1)))
          (excepts_for-node_excepts self_node origin except remote other)
