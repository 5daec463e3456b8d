-- ===== src/Mesh/Handshake/Tests.antt =====
-- Concrete runs of the handshake. The MAC of these runs is a constant.
use beam_socket.Prelude.{ℕ, ◌≡◌, refl, some, [], ◌∷◌, All, arith}
use beam_socket.Prelude.Bytes.{Bytes, IsByte}
use beam_socket.Mesh.Crypto.{constant_time_eq}
use beam_socket.Mesh.Frame.{Frame, FrameKind}
use beam_socket.Mesh.Hello.{Hello}
use beam_socket.Mesh.Hello
use beam_socket.Mesh.Config.{LinkConfig}
use beam_socket.Mesh.Handshake.{
  responder, Handshake, new, start, my_hello, plain, Negotiated, established, awaiting_auth,
}
use beam_socket.Mesh.Handshake.Machine.{on_auth, on_frame}
use beam_socket.Mesh.Handshake.Reach.{after, GoodStep, on_frame-GoodStep}
use beam_socket.Mesh.Handshake.Forgery.{IsProof, on_frame_needs-IsProof}

abbrev config : ℕ → LinkConfig
config id = record {
  protocol_version = 1;
  node_id = id;
  incarnation = 1;
  cluster_name = 98 ∷ [];
  secret = 1 ∷ [];
  max_frame = 1048576;
  features = 3;
  auth_timeout = 5000;
  idle_ping_interval = 10000;
  idle_dead_after = 30000;
  queue_hwm_bytes = 1048576;
}

abbrev thirty_two : Bytes
thirty_two =
    0 ∷ 1 ∷ 2 ∷ 3 ∷ 4 ∷ 5 ∷ 6 ∷ 7 ∷ 8 ∷ 9 ∷ 10 ∷ 11 ∷ 12 ∷ 13 ∷ 14 ∷ 15 ∷ 16 ∷ 17 ∷ 18 ∷ 19 ∷ 20
    ∷ 21 ∷ 22 ∷ 23 ∷ 24 ∷ 25 ∷ 26 ∷ 27 ∷ 28 ∷ 29 ∷ 30 ∷ 31 ∷ []

abbrev toy_mac : Bytes → Bytes → Bytes
toy_mac key msg = thirty_two

abbrev hello_frame : Frame
hello_frame = plain FrameKind.hello (Hello.encode (my_hello (config 2) thirty_two))

on_frame-GoodStep_example : GoodStep (
    on_frame toy_mac
      (after toy_mac
        (start (new responder (config 1)) thirty_two).0
        ((hello_frame, thirty_two) ∷ []))
      (plain FrameKind.auth thirty_two)
      [])
on_frame-GoodStep_example =
    on_frame-GoodStep toy_mac responder (config 1) thirty_two ((hello_frame, thirty_two) ∷ [])
      (plain FrameKind.auth thirty_two) []

abbrev agreed : Negotiated
agreed = record {
  protocol_version = 1;
  features = 3;
  max_frame = 1048576;
  role = responder;
  peer_node_id = 2;
  peer_incarnation = 1;
}

-- A responder that waits for the initiator's AUTH.
abbrev waiting : Handshake
waiting = record {
  role = responder;
  cfg = config 1;
  state = awaiting_auth;
  my_hello_raw = [];
  peer_hello_raw = some hello_frame.body;
  nonce = some thirty_two;
  negotiated = some agreed;
}

toy_mac-IsByte : (key msg : Bytes) → All IsByte (toy_mac key msg)
toy_mac-IsByte key msg = ground arith

concluded :
    (on_frame toy_mac waiting (plain FrameKind.auth thirty_two) []).1
    ≡ established (plain FrameKind.auth thirty_two ∷ []) agreed
unfolding on_frame constant_time_eq on_auth
concluded = refl

on_frame_needs-IsProof_example :
    (waiting.state ≡ awaiting_auth) × IsProof toy_mac waiting thirty_two
on_frame_needs-IsProof_example =
    on_frame_needs-IsProof toy_mac toy_mac-IsByte waiting (plain FrameKind.auth thirty_two) []
      (plain FrameKind.auth thirty_two ∷ []) agreed (ground arith) concluded
