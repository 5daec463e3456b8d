-- ===== src/Mesh/Link/Tests.antt =====
-- Concrete links. The MAC of these runs is a constant.
use beam_socket.Prelude.{ℕ, false, List, [], ◌∷◌, ◌++◌, arith}
use beam_socket.Prelude.Bytes.{Bytes}
use beam_socket.Mesh.Frame.{Frame, FrameKind, encode}
use beam_socket.Mesh.Hello
use beam_socket.Mesh.Config.{LinkConfig}
use beam_socket.Mesh.Handshake.{responder, plain, Negotiated, my_hello}
use beam_socket.Mesh.Link.{LinkHandle, establish, no_counts}
use beam_socket.Mesh.Link.Reader.{reader_loop}
use beam_socket.Mesh.Link.Reading.{Heard, encodings, reader_loop-encodings}
use beam_socket.Mesh.Link.Writing.{Ends, write_all_lem}
use beam_socket.Mesh.Link.Opening.{run_handshake}
use beam_socket.Mesh.Link.Opening.Terms.{OnTerms, run_handshake-OnTerms}

abbrev config : ℕ → LinkConfig
config id = record {
  protocol_version = 1;
  node_id = id;
  incarnation = 1;
  cluster_name = 98 ∷ [];
  secret = 1 ∷ [];
  max_frame = 1048576;
  features = 3;
  auth_timeout = 5000;
  idle_ping_interval = 10000;
  idle_dead_after = 30000;
  queue_hwm_bytes = 1048576;
}

abbrev toy_tag : Bytes
toy_tag =
    0 ∷ 1 ∷ 2 ∷ 3 ∷ 4 ∷ 5 ∷ 6 ∷ 7 ∷ 8 ∷ 9 ∷ 10 ∷ 11 ∷ 12 ∷ 13 ∷ 14 ∷ 15 ∷ 16 ∷ 17 ∷ 18 ∷ 19 ∷ 20
    ∷ 21 ∷ 22 ∷ 23 ∷ 24 ∷ 25 ∷ 26 ∷ 27 ∷ 28 ∷ 29 ∷ 30 ∷ 31 ∷ []

abbrev toy_mac : Bytes → Bytes → Bytes
toy_mac key msg = toy_tag

-- What an initiator sends: its HELLO and its proof.
abbrev greeting : Bytes
greeting =
    encode (plain FrameKind.hello (Hello.encode (my_hello (config 2) toy_tag)))
    ++ encode (plain FrameKind.auth toy_tag)

run_handshake-OnTerms_example :
    OnTerms
      (config 1)
      responder
      greeting
      (run_handshake toy_mac toy_tag responder (config 1) toy_tag greeting).outcome
run_handshake-OnTerms_example =
    run_handshake-OnTerms toy_mac toy_tag responder (config 1) toy_tag greeting

abbrev agreed : Negotiated
agreed = record {
  protocol_version = 1;
  features = 3;
  max_frame = 64;
  role = responder;
  peer_node_id = 2;
  peer_incarnation = 1;
}

abbrev fresh_link : LinkHandle
unfolding establish
fresh_link = establish agreed 1024 no_counts

abbrev heard_frames : List Frame
heard_frames =
    plain FrameKind.membership (5 ∷ [])
    ∷ record { kind = FrameKind.relay_all; flags = 1; body = 7 ∷ 8 ∷ [] }
    ∷ plain FrameKind.ping []
    ∷ []

reader_loop-encodings_example :
    Heard heard_frames fresh_link (reader_loop (encodings heard_frames) fresh_link)
unfolding fresh_link
reader_loop-encodings_example =
    reader_loop-encodings heard_frames fresh_link
      ((omega arith, omega arith), ((omega arith, omega arith), ((omega arith, omega arith), tt)))
      (omega arith) (omega arith)

-- A link with two frames to write.
abbrev loaded : LinkHandle
loaded = record fresh_link {
  queue = record {
    inner = (1 ∷ 2 ∷ []) ∷ (3 ∷ []) ∷ [];
    queued_bytes = 3;
    hwm_bytes = 1024;
    closed = false;
    notifies = 2;
    drops = 0;
  };
}

write_all_lem_example : Ends 3 loaded
unfolding fresh_link
write_all_lem_example = write_all_lem 3 loaded (omega arith) (omega arith) (omega arith)
