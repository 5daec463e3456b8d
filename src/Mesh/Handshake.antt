-- ===== src/Mesh/Handshake.antt =====
-- crates/mesh/src/handshake.rs: the handshake of one link, as the state machine that the source makes
-- of it. `hmac key msg` is HMAC-SHA256, a crate of its own and a parameter; the random bytes that a
-- step takes are its argument. `panicked` stands for the two `expect`s of the source.
pub mod Machine
pub mod Terms
pub mod Reach
pub mod Fixed
pub mod Heard
pub mod Forgery
mod Tests
use Prim.Native.Nat.{bit_and}
use beam_socket.Prelude.{
  ℕ, suc, ◌+◌, ◌-◌, ◌%◌, ◌^◌, ◌≤◌, ◌<◌, ◌≡◌, Bool, true, false, not, ◌&&◌, Option, none, some, List,
  [], ◌∷◌, ◌++◌, ltb, ◌==◌, if◌then◌else◌, length, min, bytes_eq,
}
use beam_socket.Prelude.Bytes.{Bytes}
use beam_socket.Prelude.Results.{Result, ok, err, ◌>>=◌, ◌>>◌, fail_if}
use beam_socket.Mesh.Frame.{Frame, FrameKind, min_frame_floor}
use beam_socket.Mesh.Hello.{Hello, HelloError, bad_magic}
use beam_socket.Mesh.Hello
use beam_socket.Mesh.Config.{LinkConfig}

abbrev pub interest_routing : ℕ
interest_routing = 1

abbrev pub relay : ℕ
relay = 2

-- "bsmh-initiator" and "bsmh-responder"
abbrev pub initiator_label : Bytes
initiator_label =
    98 ∷ 115 ∷ 109 ∷ 104 ∷ 45 ∷ 105 ∷ 110 ∷ 105 ∷ 116 ∷ 105 ∷ 97 ∷ 116 ∷ 111 ∷ 114 ∷ []

abbrev pub responder_label : Bytes
responder_label =
    98 ∷ 115 ∷ 109 ∷ 104 ∷ 45 ∷ 114 ∷ 101 ∷ 115 ∷ 112 ∷ 111 ∷ 110 ∷ 100 ∷ 101 ∷ 114 ∷ []

pub data Role : Type 0 where
  initiator responder : Role

unfoldable pub my_label : Role → Bytes
my_label initiator = initiator_label
my_label responder = responder_label

unfoldable pub peer_label : Role → Bytes
peer_label initiator = responder_label
peer_label responder = initiator_label

pub record Negotiated : Type 0 where
  pub protocol_version : ℕ
  pub features : ℕ
  pub max_frame : ℕ
  pub role : Role
  pub peer_node_id : ℕ
  pub peer_incarnation : ℕ

abbrev has_bit : ℕ → ℕ → Bool
has_bit features bit = not (bit_and features bit == 0)

unfoldable pub may_emit : Negotiated → FrameKind → Bool
may_emit n FrameKind.hello = true
may_emit n FrameKind.challenge = true
may_emit n FrameKind.auth = true
may_emit n FrameKind.ping = true
may_emit n FrameKind.membership = true
may_emit n FrameKind.interest = has_bit n.features interest_routing
may_emit n FrameKind.interest_digest = has_bit n.features interest_routing
may_emit n FrameKind.relay_room = has_bit n.features relay
may_emit n FrameKind.relay_user = has_bit n.features relay
may_emit n FrameKind.relay_all = has_bit n.features relay
may_emit n FrameKind.relay_socket = has_bit n.features relay

-- The text of a protocol violation, as the place that reports it.
pub data Violation : Type 0 where
  after_terminal expected_hello expected_challenge nonce_size expected_auth mac_size : Violation

pub data RefuseReason : Type 0 where
  protocol_violation : Violation → RefuseReason
  not_mesh_peer : RefuseReason
  malformed_hello : HelloError → RefuseReason
  cluster_mismatch : Bytes → Bytes → RefuseReason
  incompatible_version : ℕ → ℕ → RefuseReason
  node_id_collision : ℕ → RefuseReason
  max_frame_too_small : ℕ → ℕ → RefuseReason
  auth_failed : RefuseReason

pub should_backoff_retry : RefuseReason → Bool
should_backoff_retry auth_failed = true
should_backoff_retry _ = false

pub data HandshakeStep : Type 0 where
  continue : List Frame → HandshakeStep
  established : List Frame → Negotiated → HandshakeStep
  refused : RefuseReason → HandshakeStep
  panicked : HandshakeStep

pub data State : Type 0 where
  awaiting_hello awaiting_challenge awaiting_auth done stopped : State

pub record Handshake : Type 0 where
  pub role : Role
  pub cfg : LinkConfig
  pub state : State
  pub my_hello_raw : Bytes
  pub peer_hello_raw : Option Bytes
  pub nonce : Option Bytes
  pub negotiated : Option Negotiated

unfoldable pub new : Role → LinkConfig → Handshake
new role cfg = record {
  role = role;
  cfg = cfg;
  state = awaiting_hello;
  my_hello_raw = [];
  peer_hello_raw = none;
  nonce = none;
  negotiated = none;
}

-- `Frame::new`: no flags.
abbrev pub plain : FrameKind → Bytes → Frame
plain kind body = record { kind = kind; flags = 0; body = body }

unfoldable pub my_hello : LinkConfig → Bytes → Hello
my_hello cfg fresh = record {
  protocol_version = cfg.protocol_version;
  node_id = cfg.node_id;
  incarnation = cfg.incarnation;
  max_frame = cfg.max_frame;
  features = cfg.features;
  fresh = fresh;
  cluster_name = cfg.cluster_name;
}

unfoldable pub start : Handshake → Bytes → Handshake × Frame
start hs fresh =
    let raw = Hello.encode (my_hello hs.cfg fresh) in
    (record hs { my_hello_raw = raw }, plain FrameKind.hello raw)

abbrev bytes_or_empty : Option Bytes → Bytes
bytes_or_empty none = []
bytes_or_empty (some b) = b

-- The two HELLO bodies, the initiator's first.
unfoldable pub transcript_as : Role → Bytes → Option Bytes → Bytes
transcript_as initiator mine peer = mine ++ bytes_or_empty peer
transcript_as responder mine peer = bytes_or_empty peer ++ mine

unfoldable pub transcript : Handshake → Bytes
unfolding transcript_as
transcript hs = transcript_as hs.role hs.my_hello_raw hs.peer_hello_raw

-- `local.abs_diff(peer)`
abbrev pub abs_diff : ℕ → ℕ → ℕ
abs_diff a b = if ltb a b then b - a else a - b

abbrev decode_hello : Bytes → Result RefuseReason Hello
decode_hello body = elim (Hello.decode body) [
  | ok h ↦ ok h
  | err e ↦ elim e [ bad_magic ↦ err not_mesh_peer | other ↦ err (malformed_hello other) ]
]

unfoldable pub validate_peer_hello : Handshake → Bytes → Result RefuseReason Negotiated
validate_peer_hello hs body = do
  hello ← decode_hello body
  fail_if (not (bytes_eq hello.cluster_name hs.cfg.cluster_name))
      (cluster_mismatch hs.cfg.cluster_name hello.cluster_name)
  fail_if (hello.node_id == hs.cfg.node_id) (node_id_collision hello.node_id)
  let version = hs.cfg.protocol_version
  let peer = hello.protocol_version
  fail_if (ltb 1 (abs_diff version peer)) (incompatible_version version peer)
  let max_frame = min hs.cfg.max_frame hello.max_frame
  fail_if (ltb max_frame min_frame_floor) (max_frame_too_small max_frame min_frame_floor)
  ok (record {
    protocol_version = min version peer;
    features = bit_and hs.cfg.features hello.features;
    max_frame = max_frame;
    role = hs.role;
    peer_node_id = hello.node_id;
    peer_incarnation = hello.incarnation;
  })
