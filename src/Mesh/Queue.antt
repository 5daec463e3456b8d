-- ===== src/Mesh/Queue.antt =====
-- crates/mesh/src/queue.rs: the outbound data queue of one peer link, bounded in bytes. Each method
-- runs under the lock of `inner`, so a method is one step on the state. `notifies` counts the calls
-- of `notify_one`, which wake the writer.
pub mod Invariant
pub mod Coalesce
pub mod Delivery
use beam_socket.Prelude.{
  ℕ, suc, ◌+◌, ◌≤◌, ◌<◌, ◌≡◌, Bool, true, false, not, ◌&&◌, List, [], ◌∷◌, ◌++◌, ltb, ◌==◌,
  if◌then◌else◌, length,
}
use beam_socket.Prelude.Bytes.{Bytes}
use beam_socket.Prelude.Words.{add64, sub64, IsU64}

pub data PushOutcome : Type 0 where
  enqueued dropped : PushOutcome

pub record PeerQueue : Type 0 where
  pub inner : List Bytes
  pub queued_bytes : ℕ
  pub hwm_bytes : ℕ
  pub drops : ℕ
  pub notifies : ℕ
  pub closed : Bool

unfoldable pub new : ℕ → PeerQueue
new hwm = record {
  inner = [];
  queued_bytes = 0;
  hwm_bytes = hwm;
  drops = 0;
  notifies = 0;
  closed = false;
}

unfoldable pub push : PeerQueue → Bytes → PeerQueue × PushOutcome
push q frame =
    if ltb q.hwm_bytes (add64 q.queued_bytes (length frame))
    then (record q { drops = add64 q.drops 1 }, dropped)
    else (
      record q {
        inner = q.inner ++ (frame ∷ []);
        queued_bytes = add64 q.queued_bytes (length frame);
        notifies = suc q.notifies;
      },
      enqueued,
    )

-- The variables of the `while let` loop of `drain_coalesced`.
pub record Draining : Type 0 where
  pub frames : List Bytes
  pub queued : ℕ
  pub out : Bytes
  pub drained : ℕ

abbrev is_empty_buf : Bytes → Bool
is_empty_buf [] = true
is_empty_buf (b ∷ bs) = false

drain_loop : ℕ → List Bytes → ℕ → Bytes → ℕ → Draining
drain_loop cap_bytes [] queued out drained = record {
  frames = [];
  queued = queued;
  out = out;
  drained = drained;
}
drain_loop cap_bytes (front ∷ rest) queued out drained =
    let next =
      drain_loop cap_bytes rest (sub64 queued (length front)) (out ++ front) (drained + 1) in
    if not (is_empty_buf out) && ltb cap_bytes (length out + length front)
    then record { frames = front ∷ rest; queued = queued; out = out; drained = drained }
    else next

-- The queue afterwards, the buffer, and the number of frames moved.
pub drain_coalesced : PeerQueue → Bytes → ℕ → PeerQueue × Bytes × ℕ
drain_coalesced q out cap_bytes =
    let d = drain_loop cap_bytes q.inner q.queued_bytes out 0 in
    (record q { inner = d.frames; queued_bytes = d.queued }, d.out, d.drained)

pub is_empty : PeerQueue → Bool
is_empty q = q.queued_bytes == 0

unfoldable pub close : PeerQueue → PeerQueue
close q = record q { closed = true; notifies = suc q.notifies }

-- The calls on one queue, in the order in which they take its lock.
pub data Call : Type 0 where
  pushes : Bytes → Call
  drains : ℕ → Call
  closes : Call

-- The writer drains into an empty buffer.
pub step : PeerQueue → Call → PeerQueue
step q (pushes frame) = (push q frame).0
step q (drains cap_bytes) = (drain_coalesced q [] cap_bytes).0
step q closes = close q

pub run : PeerQueue → List Call → PeerQueue
run q [] = q
run q (c ∷ cs) = run (step q c) cs

-- What the calls put on the wire, and which frames they accepted.
pub delivered : PeerQueue → List Call → Bytes
delivered q [] = []
delivered q (drains cap_bytes ∷ cs) =
    (drain_coalesced q [] cap_bytes).1 ++ delivered (step q (drains cap_bytes)) cs
delivered q (c ∷ cs) = delivered (step q c) cs

abbrev pub flat : List Bytes → Bytes
flat [] = []
flat (f ∷ fs) = f ++ flat fs

abbrev if_enqueued : PushOutcome → Bytes → Bytes
if_enqueued enqueued frame = frame
if_enqueued dropped frame = []

pub accepted : PeerQueue → List Call → Bytes
accepted q [] = []
accepted q (pushes frame ∷ cs) =
    if_enqueued (push q frame).1 frame ++ accepted (step q (pushes frame)) cs
accepted q (c ∷ cs) = accepted (step q c) cs

abbrev pub total : List Bytes → ℕ
total [] = 0
total (f ∷ fs) = length f + total fs
