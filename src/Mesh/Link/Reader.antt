-- ===== src/Mesh/Link/Reader.antt =====
-- crates/mesh/src/link.rs: what the reader of a link does with the bytes that come in.
use beam_socket.Prelude.{
  ℕ, zero, suc, ◌+◌, Bool, true, false, not, ◌&&◌, Option, none, some, List, [], ◌∷◌, if◌then◌else◌,
  length,
}
use beam_socket.Prelude.Bytes.{Bytes, of_le_bytes, get_bytes}
use beam_socket.Prelude.Results.{Result, ok, err, ◌>>=◌}
use beam_socket.Prelude.Words.{add64}
use beam_socket.Mesh.Frame.{
  Frame, FrameKind, FrameError, truncated, malformed, oversize, unknown_kind, header_len,
  decode_len, encode, from_u8,
}
use beam_socket.Mesh.Handshake.{RefuseReason, may_emit}
use beam_socket.Mesh.Queue.{PeerQueue, PushOutcome, enqueued, dropped, drain_coalesced}
use beam_socket.Mesh.Queue
use beam_socket.Mesh.Link.{pong, has_flag, LinkHandle, ping_frame, closed}

pub data Fault : Type 0 where
  unknown_kind_in_handshake malformed_prefix : Fault

-- `Io` is a failure of the socket.
pub data LinkError : Type 0 where
  link_refused : RefuseReason → LinkError
  auth_timeout eof io : LinkError
  oversize_prefix : ℕ → ℕ → LinkError
  protocol : Fault → LinkError

abbrev pub body_size : Result FrameError ℕ → Result LinkError ℕ
body_size (ok n) = ok n
body_size (err (oversize len max)) = err (oversize_prefix len max)
body_size (err truncated) = err (protocol malformed_prefix)
body_size (err malformed) = err (protocol malformed_prefix)
body_size (err (unknown_kind k)) = err (protocol malformed_prefix)

-- `read_exact` on the bytes that are still to come.
abbrev pub read_exact : ℕ → Bytes → Result LinkError (Bytes × Bytes)
read_exact n stream = elim (get_bytes n stream) [ none ↦ err eof | some (bs, rest) ↦ ok (bs, rest) ]

-- `buf[0]`, `buf[1]` and `buf[2..]`, of at least two bytes.
abbrev pub split_head : Bytes → ℕ × ℕ × Bytes
split_head [] = (0, 0, [])
split_head (kind ∷ []) = (kind, 0, [])
split_head (kind ∷ flags ∷ body) = (kind, flags, body)

unfoldable pub read_raw_frame : ℕ → Bytes → Result LinkError ((ℕ × ℕ × Bytes) × Bytes)
read_raw_frame max_frame stream = do
  prefix ← read_exact 4 stream
  n ← body_size (decode_len (of_le_bytes prefix.0) max_frame)
  buf ← read_exact n prefix.1
  ok (split_head buf.0, buf.1)

unfoldable pub is_feature_gated : FrameKind → Bool
is_feature_gated FrameKind.interest = true
is_feature_gated FrameKind.interest_digest = true
is_feature_gated FrameKind.relay_room = true
is_feature_gated FrameKind.relay_user = true
is_feature_gated FrameKind.relay_all = true
is_feature_gated FrameKind.relay_socket = true
is_feature_gated _ = false

abbrev pub count_unknown : LinkHandle → LinkHandle
count_unknown h = record h {
  counters = record h.counters { unknown_frames = add64 h.counters.unknown_frames 1 };
}

abbrev pub count_frame : LinkHandle → LinkHandle
count_frame h = record h {
  counters = record h.counters { frames_in = add64 h.counters.frames_in 1 };
}

-- What arrived is a PING, or the PONG to one.
unfoldable pub on_ping : ℕ → LinkHandle → LinkHandle
unfolding ping_frame
on_ping flags h =
    if has_flag flags pong
    then record h { counters = record h.counters { pongs_recv = add64 h.counters.pongs_recv 1 } }
    else record h { queue = (Queue.push h.queue (encode (ping_frame true))).0 }

-- The `match` on a kind that counts; the second part is what the inbound hook is called with.
unfoldable pub handle_kind : FrameKind → ℕ → Bytes → LinkHandle → LinkHandle × Option Frame
unfolding on_ping
handle_kind FrameKind.ping flags body h = (on_ping flags h, none)
handle_kind FrameKind.hello flags body h = (h, none)
handle_kind FrameKind.challenge flags body h = (h, none)
handle_kind FrameKind.auth flags body h = (h, none)
handle_kind kind flags body h = (h, some (record { kind = kind; flags = flags; body = body }))

-- A kind of the catalog that was not negotiated is counted as unknown.
unfoldable pub dispatch_known : FrameKind → ℕ → Bytes → LinkHandle → LinkHandle × Option Frame
unfolding is_feature_gated handle_kind
dispatch_known kind flags body h =
    if is_feature_gated kind && not (may_emit h.negotiated kind)
    then (count_unknown h, none)
    else handle_kind kind flags body (count_frame h)

unfoldable pub dispatch : ℕ → ℕ → Bytes → LinkHandle → LinkHandle × Option Frame
unfolding dispatch_known
dispatch kind_byte flags body h = elim (from_u8 kind_byte) [
  | none ↦ (count_unknown h, none)
  | some kind ↦ dispatch_known kind flags body h
]

-- The end of the reader: the caller then runs the hook for a closed link.
unfoldable pub end_reading : LinkHandle → LinkHandle
end_reading h = record h { state = closed; queue = Queue.close h.queue }

abbrev pub is_oversize : LinkError → Bool
is_oversize (oversize_prefix len max) = true
is_oversize _ = false

abbrev pub count_close : LinkError → LinkHandle → LinkHandle
count_close e h =
    if is_oversize e
    then record h {
      counters = record h.counters { oversize_closes = add64 h.counters.oversize_closes 1 };
    }
    else h

abbrev pub and_hooked : Option Frame → List Frame → List Frame
and_hooked none frames = frames
and_hooked (some f) frames = f ∷ frames

-- What the reader does with a frame.
unfoldable pub receive : ℕ → ℕ → Bytes → LinkHandle → LinkHandle × Option Frame
unfolding dispatch
receive kind_byte flags body h = dispatch kind_byte flags body (record h {
  counters = record h.counters { bytes_in = add64 h.counters.bytes_in (header_len + length body) };
})

-- `reader_loop` on all that the peer will have sent, with fuel for its frames; the frames are those that
-- the inbound hook was called with.
unfoldable pub read_loop : ℕ → Bytes → LinkHandle → LinkHandle × List Frame
unfolding read_raw_frame receive end_reading
read_loop zero stream h = (h, [])
read_loop (suc fuel) stream h = elim (read_raw_frame h.negotiated.max_frame stream) [
  | err e ↦ (end_reading (count_close e h), [])
  | ok ((kind_byte, flags, body), rest) ↦
      (let (after, hooked) = receive kind_byte flags body h in
        let (last, frames) = read_loop fuel rest after in (last, and_hooked hooked frames))
]

-- A frame takes more than one byte, so that this is enough.
unfoldable pub reader_loop : Bytes → LinkHandle → LinkHandle × List Frame
unfolding read_loop
reader_loop stream h = read_loop (suc (length stream)) stream h
