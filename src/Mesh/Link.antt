-- ===== src/Mesh/Link.antt =====
-- crates/mesh/src/link.rs: one link after its handshake: what is sent, what the writer puts on the wire and
-- the ticks of the keepalive; LinkCounters of counters.rs. The reader is in Reader. The shared parts of a link are one record. `shutdown` counts the calls of `notify_waiters`.
pub mod Reader
pub mod Reading
pub mod Writing
pub mod Opening
mod Tests
use beam_socket.Prelude.{
  ℕ, zero, suc, ◌+◌, ◌*◌, ◌^◌, Bool, true, false, not, ◌&&◌, Option, none, some, List, [], ◌∷◌,
  ◌++◌, ltb, ◌==◌, if◌then◌else◌, length, drop,
}
use Prim.Native.Nat.{bit_and}
use beam_socket.Prelude.Bytes.{Bytes, of_le_bytes, get_bytes}
use beam_socket.Prelude.Results.{Result, ok, err, ◌>>=◌}
use beam_socket.Prelude.Words.{add64}
use beam_socket.Mesh.Frame.{
  Frame, FrameKind, FrameError, truncated, malformed, oversize, unknown_kind, header_len,
  decode_len, encode, from_u8,
}
use beam_socket.Mesh.Handshake.{Negotiated, RefuseReason, may_emit, plain}
use beam_socket.Mesh.Queue.{PeerQueue, PushOutcome, enqueued, dropped, drain_coalesced}
use beam_socket.Mesh.Queue

abbrev pub coalesce_cap_bytes : ℕ
coalesce_cap_bytes = 128 * 1024

-- `Flags::PONG`, and `Flags::has`.
abbrev pub pong : ℕ
pong = 1

abbrev pub has_flag : ℕ → ℕ → Bool
has_flag flags bit = not (bit_and flags bit == 0)

pub record LinkCounters : Type 0 where
  pub bytes_in : ℕ
  pub bytes_out : ℕ
  pub frames_in : ℕ
  pub frames_out : ℕ
  pub unknown_frames : ℕ
  pub auth_failures : ℕ
  pub auth_timeouts : ℕ
  pub suppressed_emits : ℕ
  pub pings_sent : ℕ
  pub pongs_recv : ℕ
  pub oversize_closes : ℕ

abbrev pub no_counts : LinkCounters
no_counts = record {
  bytes_in = 0;
  bytes_out = 0;
  frames_in = 0;
  frames_out = 0;
  unknown_frames = 0;
  auth_failures = 0;
  auth_timeouts = 0;
  suppressed_emits = 0;
  pings_sent = 0;
  pongs_recv = 0;
  oversize_closes = 0;
}

pub data LinkState : Type 0 where
  up closing closed refused : LinkState

-- The handle, with what its clones share.
pub record LinkHandle : Type 0 where
  pub negotiated : Negotiated
  pub queue : PeerQueue
  pub counters : LinkCounters
  pub state : LinkState
  pub shutdown : ℕ

-- The last part of `establish`.
unfoldable pub establish : Negotiated → ℕ → LinkCounters → LinkHandle
establish negotiated queue_hwm_bytes counters = record {
  negotiated = negotiated;
  queue = Queue.new queue_hwm_bytes;
  counters = counters;
  state = up;
  shutdown = 0;
}

-- An `Err` has the kind that was suppressed.
unfoldable pub try_send_encoded :
    FrameKind → Bytes → LinkHandle → LinkHandle × Result FrameKind PushOutcome
try_send_encoded kind frame h =
    if may_emit h.negotiated kind
    then (let (queue, outcome) = Queue.push h.queue frame in
        (record h { queue = queue }, ok outcome))
    else (
      record h {
        counters = record h.counters { suppressed_emits = add64 h.counters.suppressed_emits 1 };
      },
      err kind,
    )

unfoldable pub try_send : Frame → LinkHandle → LinkHandle × Result FrameKind PushOutcome
unfolding try_send_encoded
try_send frame h = try_send_encoded frame.kind (encode frame) h

abbrev pub or_dropped : Result FrameKind PushOutcome → PushOutcome
or_dropped (ok outcome) = outcome
or_dropped (err kind) = dropped

-- As in a release build.
unfoldable pub send : Frame → LinkHandle → LinkHandle × PushOutcome
unfolding try_send
send frame h = let (after, res) = try_send frame h in (after, or_dropped res)

unfoldable pub close : LinkHandle → LinkHandle
close h = record h { state = closing; shutdown = suc h.shutdown; queue = Queue.close h.queue }

unfoldable pub ping_frame : Bool → Frame
ping_frame reply = record { kind = FrameKind.ping; flags = if reply then pong else 0; body = [] }

-- The counts of one write.
abbrev pub count_write : PeerQueue → Bytes → ℕ → LinkHandle → LinkHandle
count_write queue scratch n h = record h {
  queue = queue;
  counters = record h.counters {
    bytes_out = add64 h.counters.bytes_out (length scratch);
    frames_out = add64 h.counters.frames_out n;
  };
}

abbrev pub after_writing : Bytes → Option (LinkHandle × Bytes) → Option (LinkHandle × Bytes)
after_writing scratch none = none
after_writing scratch (some (last, more)) = some (last, scratch ++ more)

-- The inner loop of `writer_loop`: all that it writes before it breaks. None is that it did not in this many
-- rounds.
unfoldable pub write_all : ℕ → LinkHandle → Option (LinkHandle × Bytes)
write_all zero h = none
write_all (suc fuel) h =
    let (queue, scratch, n) = drain_coalesced h.queue [] coalesce_cap_bytes in
    elim (n == 0) [
      | true ↦ some (record h { queue = queue }, [])
      | false ↦ after_writing scratch (write_all fuel (count_write queue scratch n h))
    ]

-- One tick of `keepalive_loop`; whether it goes on.
unfoldable pub keepalive_tick : ℕ → ℕ → LinkHandle → LinkHandle × Bool
unfolding ping_frame
keepalive_tick idle_ms dead_after_ms h =
    if h.queue.closed
    then (h, false)
    else if ltb dead_after_ms idle_ms
    then (
      record h { state = closed; shutdown = suc h.shutdown; queue = Queue.close h.queue },
      false,
    )
    else (let (queue, outcome) = Queue.push h.queue (encode (ping_frame false)) in
        (
          elim outcome [
            | enqueued ↦ record h {
              queue = queue;
              counters = record h.counters { pings_sent = add64 h.counters.pings_sent 1 };
            }
            | dropped ↦ record h { queue = queue }
          ],
          true,
        ))
