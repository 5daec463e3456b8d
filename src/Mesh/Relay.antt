-- ===== src/Mesh/Relay.antt =====
-- crates/mesh/src/node.rs: the kinds of relays, and the frame that `relay` builds once for all peers.
use beam_socket.Prelude.{
  ℕ, ◌+◌, ◌%◌, ◌^◌, Bool, Option, none, some, ◌∷◌, ◌++◌, if◌then◌else◌, length,
}
use beam_socket.Prelude.Bytes.{Bytes, le_bytes}
use beam_socket.Mesh.Frame.{FrameKind, as_u8}

pub data RelayKind : Type 0 where
  relay_room relay_user relay_all relay_socket : RelayKind

unfoldable pub frame_kind : RelayKind → FrameKind
frame_kind relay_room = FrameKind.relay_room
frame_kind relay_user = FrameKind.relay_user
frame_kind relay_all = FrameKind.relay_all
frame_kind relay_socket = FrameKind.relay_socket

unfoldable pub from_frame_kind : FrameKind → Option RelayKind
from_frame_kind FrameKind.relay_room = some relay_room
from_frame_kind FrameKind.relay_user = some relay_user
from_frame_kind FrameKind.relay_all = some relay_all
from_frame_kind FrameKind.relay_socket = some relay_socket
from_frame_kind _ = none

-- `Flags::BINARY`.
abbrev pub binary : ℕ
binary = 1

unfoldable pub relay_bytes : RelayKind → Bool → Bytes → Bytes → Bytes
unfolding frame_kind
relay_bytes kind is_binary metadata payload =
    let flags = if is_binary then binary else 0 in
    let body_len = length metadata + length payload in
    le_bytes 4 ((2 + body_len) % 2 ^ 32)
    ++ (as_u8 (frame_kind kind) ∷ flags ∷ (metadata ++ payload))
