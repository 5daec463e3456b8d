-- ===== src/Mesh/Tests.antt =====
-- Concrete runs of the frames, the queue, the codecs, the generator and the checks of the mesh crate.
use beam_socket.Prelude.{◌+◌, ◌≤◌, ◌<◌, ◌≡◌, refl, Bool, List, [], ◌∷◌, ◌++◌, length, arith, All}
use beam_socket.Prelude.Bytes.{Bytes, IsByte}
use beam_socket.Mesh.Frame.{as_u8, decode_len, Frame, FrameKind, encode, wire_len, malformed}
use beam_socket.Prelude.Results.{err}
use beam_socket.Mesh.Frame.RoundTrip.{parse-encode, parse-eq_ok}
use beam_socket.Mesh.Queue.{
  PeerQueue, new, Call, pushes, drains, closes, run, delivered, accepted, flat, total,
  drain_coalesced,
}
use beam_socket.Mesh.Queue.Invariant.{run-new-IsBounded}
use beam_socket.Mesh.Queue.Delivery.{delivered-run}
use beam_socket.Mesh.Queue.Coalesce.{Coalesced, drain_coalesced_lem}

abbrev ping_frame : Frame
ping_frame = record { kind = FrameKind.ping; flags = 0; body = 7 ∷ 9 ∷ [] }

ping_bytes : All IsByte (encode ping_frame ++ (1 ∷ []))
unfolding encode as_u8
ping_bytes = ground arith

parse-eq_ok_example :
    (rest : Bytes) × (encode ping_frame ++ (1 ∷ []) ≡ encode ping_frame ++ rest)
    × (2 + length ping_frame.body ≤ 64)
parse-eq_ok_example =
    parse-eq_ok (encode ping_frame ++ (1 ∷ [])) 64 ping_frame ping_bytes
      (parse-encode ping_frame (1 ∷ []) 64 (omega arith) (omega arith))

one_too_short : decode_len 1 64 ≡ err malformed
unfolding decode_len
one_too_short = refl

ping_len : 5 < wire_len ping_frame
unfolding wire_len
ping_len = omega arith

abbrev queue_calls : List Call
queue_calls = pushes (1 ∷ 2 ∷ []) ∷ pushes (3 ∷ []) ∷ drains 2 ∷ closes ∷ pushes (4 ∷ []) ∷ []

run-new-IsBounded_example :
    ((run (new 3) queue_calls).queued_bytes ≡ total (run (new 3) queue_calls).inner)
    × (total (run (new 3) queue_calls).inner ≤ 3)
run-new-IsBounded_example = run-new-IsBounded 3 queue_calls (omega arith) (ground arith)

delivered-run_example :
    delivered (new 3) queue_calls ++ flat (run (new 3) queue_calls).inner
    ≡ flat (new 3).inner ++ accepted (new 3) queue_calls
delivered-run_example = delivered-run (new 3) queue_calls

abbrev two_queued : PeerQueue
two_queued = record {
  inner = (1 ∷ 2 ∷ []) ∷ (3 ∷ []) ∷ [];
  queued_bytes = 3;
  hwm_bytes = 3;
  closed = Bool.false;
  notifies = 0;
  drops = 0;
}

drain_coalesced_lem_example :
    let (after, filled, n) = drain_coalesced two_queued (9 ∷ []) 2 in
    Coalesced 2 (9 ∷ []) two_queued.inner after.inner filled n
drain_coalesced_lem_example = drain_coalesced_lem two_queued (9 ∷ []) 2
