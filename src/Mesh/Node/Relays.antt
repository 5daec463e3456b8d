-- ===== src/Mesh/Node/Relays.antt =====
-- node.rs: what arrives of a relay.
use beam_socket.Prelude.{
  ℕ, ◌+◌, ◌^◌, ◌<◌, ◌≤◌, ◌≡◌, ◌∙◌, refl, ap, Bool, true, false, Option, none, some, ◌++◌, length,
  length-append, arith, if◌then◌else◌,
}
use beam_socket.Prelude.Bytes.{Bytes}
use beam_socket.Prelude.Keys.{nat_key, contains}
use beam_socket.Prelude.Results.{ok, err}
use beam_socket.Mesh.Frame.{Frame, encode}
use beam_socket.Mesh.Handshake.{may_emit}
use beam_socket.Mesh.Link.{LinkHandle, has_flag}
use beam_socket.Mesh.Link.Reader.{read_raw_frame, receive}
use beam_socket.Mesh.Link.Reading.{read_raw_frame-encode, hear_lem, is_data}
use beam_socket.Mesh.Relay.{
  RelayKind, relay_room, relay_user, relay_all, relay_socket, frame_kind, from_frame_kind,
  relay_bytes, binary,
}
use beam_socket.Mesh.Node.{MeshNode, Relayed, relayed, on_kind, on_inbound}

-- The first frame of what a peer sends, on its way through the reader and the inbound hook to the relay
-- handler.
unfoldable pub hear_first : ℕ → LinkHandle → MeshNode → Bytes → Option Relayed
unfolding read_raw_frame receive on_inbound
hear_first now h n stream = elim (read_raw_frame h.negotiated.max_frame stream) [
  | err e ↦ none
  | ok ((kind_byte, flags, body), rest) ↦ elim (receive kind_byte flags body h).1 [
    | none ↦ none
    | some frame ↦ (on_inbound now h.negotiated.peer_node_id frame n).1
  ]
]

abbrev relay_frame : RelayKind → Bool → Bytes → Frame
relay_frame kind is_binary body = record {
  kind = frame_kind kind;
  flags = if is_binary then binary else 0;
  body = body;
}

relay_bytes-encode :
    (kind : RelayKind) (is_binary : Bool) (metadata payload : Bytes)
    → relay_bytes kind is_binary metadata payload
      ≡ encode (relay_frame kind is_binary (metadata ++ payload))
unfolding relay_bytes encode
relay_bytes-encode kind is_binary metadata payload = rw (length-append metadata payload) refl

binary_flag : (is_binary : Bool) → has_flag (if is_binary then binary else 0) binary ≡ is_binary
binary_flag true = refl
binary_flag false = refl

on_kind_relay :
    (now peer : ℕ) (kind : RelayKind) (frame : Frame) (n : MeshNode)
    → on_kind (frame_kind kind) now peer frame n ≡ (n, relayed (some kind) frame)
unfolding on_kind frame_kind from_frame_kind
on_kind_relay now peer relay_room frame n = refl
on_kind_relay now peer relay_user frame n = refl
on_kind_relay now peer relay_all frame n = refl
on_kind_relay now peer relay_socket frame n = refl

-- A relay that arrives goes to the relay handler as it was sent, and to no peer: the node is unchanged.
pub on_inbound_relay :
    (now peer : ℕ) (kind : RelayKind) (is_binary : Bool) (body : Bytes) (n : MeshNode)
    → contains peer n.deny ≡ false
    → on_inbound now peer (relay_frame kind is_binary body) n
      ≡ (n, some (record { kind = kind; is_binary = is_binary; body = body }))
unfolding on_inbound
on_inbound_relay now peer kind is_binary body n allowed =
    rw (on_inbound, allowed)
      (on_kind_relay now peer kind (relay_frame kind is_binary body) n
        ∙ ap (λ b. (n, some (record { kind = kind; is_binary = b; body = body })))
            (binary_flag is_binary))

is_data_relay : (kind : RelayKind) → is_data (frame_kind kind) ≡ true
unfolding is_data frame_kind
is_data_relay relay_room = refl
is_data_relay relay_user = refl
is_data_relay relay_all = refl
is_data_relay relay_socket = refl

-- The bytes that `relay` builds, arriving on a link that negotiated relays and allows their size, from a
-- peer that is not denied, call the relay handler with the kind, the flag and the metadata followed by the
-- payload, whatever follows them on the wire.
pub hear_first-relay_bytes :
    (now : ℕ) (h : LinkHandle) (n : MeshNode) (kind : RelayKind) (is_binary : Bool)
    (metadata payload rest : Bytes)
    → 2 + length metadata + length payload ≤ h.negotiated.max_frame
    → h.negotiated.max_frame < 2 ^ 32
    → may_emit h.negotiated (frame_kind kind) ≡ true
    → contains h.negotiated.peer_node_id n.deny ≡ false
    → hear_first now h n (relay_bytes kind is_binary metadata payload ++ rest)
      ≡ some (record { kind = kind; is_binary = is_binary; body = metadata ++ payload })
unfolding hear_first
hear_first-relay_bytes now h n kind is_binary metadata payload rest fits small emits allowed =
    let frame : Frame = relay_frame kind is_binary (metadata ++ payload) in
    let read =
      read_raw_frame-encode frame rest h.negotiated.max_frame
        (omega (arith, length-append metadata payload), small) in
    let heard = (hear_lem frame h).0 in
    rw
      (
        relay_bytes-encode kind is_binary metadata payload,
        hear_first,
        read,
        heard,
        is_data_relay kind,
        emits,
      )
      (ap (λ r. r.1)
        (on_inbound_relay now h.negotiated.peer_node_id kind is_binary (metadata ++ payload) n
          allowed))
