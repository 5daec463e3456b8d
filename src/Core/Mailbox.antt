-- ===== src/Core/Mailbox.antt =====
-- crates/core/src/connection/backpressure.rs: the bounded send queue of one connection. A mutex guards
-- every operation, so each is one step of the state. What an operation adds to the shared counter
-- `backpressure_drops` is part of its result. `bytes` is a `usize` and is modelled without a bound.
pub mod Bound
pub mod Account
mod Tests
use beam_socket.Prelude.{
  ℕ, zero, suc, ◌+◌, ◌-◌, Bool, true, false, not, ◌&&◌, List, [], ◌∷◌, ◌++◌, ltb, if◌then◌else◌,
  length, max,
}
use beam_socket.Prelude.Bytes.{Bytes}

pub data BackpressurePolicy : Type 0 where
  disconnect drop_newest drop_oldest : BackpressurePolicy

pub record OutboundFrame : Type 0 where
  pub body : Bytes
  pub is_binary : Bool

pub data PushOutcome : Type 0 where
  queued dropped_newest dropped_oldest disconnected refused_closed : PushOutcome

unfoldable pub charge : OutboundFrame → ℕ
charge frame = max (length frame.body) 1

pub record Mailbox : Type 0 where
  pub items : List OutboundFrame
  pub bytes : ℕ
  pub closed : Bool

unfoldable pub new : Mailbox
new = record { items = []; bytes = 0; closed = false }

abbrev pub is_empty : List OutboundFrame → Bool
is_empty [] = true
is_empty (f ∷ fs) = false

-- `while q.bytes + len > high_water_mark`, on the items and their bytes; the last part of the result is
-- the number of frames that were discarded.
unfoldable pub discard : ℕ → ℕ → List OutboundFrame → ℕ → List OutboundFrame × ℕ × ℕ
discard hwm len [] bytes = ([], bytes, 0)
discard hwm len (f ∷ fs) bytes =
    let (rest, left, n) = discard hwm len fs (bytes - charge f) in
    if ltb hwm (bytes + len) then (rest, left, suc n) else (f ∷ fs, bytes, 0)

abbrev pub enqueue : OutboundFrame → List OutboundFrame → ℕ → Mailbox → Mailbox
enqueue frame items bytes q = record q {
  items = items ++ (frame ∷ []);
  bytes = bytes + charge frame;
}

unfoldable pub overflow :
    BackpressurePolicy → ℕ → OutboundFrame → Mailbox → Mailbox × PushOutcome × ℕ
unfolding discard
overflow disconnect hwm frame q = (record q { closed = true }, disconnected, 1)
overflow drop_newest hwm frame q = (q, dropped_newest, 1)
overflow drop_oldest hwm frame q =
    let (items, bytes, dropped) = discard hwm (charge frame) q.items q.bytes in
    (enqueue frame items bytes q, dropped_oldest, dropped)

-- The mailbox, the outcome, and what is added to the counter of drops.
unfoldable pub push : BackpressurePolicy → ℕ → OutboundFrame → Mailbox → Mailbox × PushOutcome × ℕ
unfolding overflow
push policy hwm frame q =
    if q.closed
    then (q, refused_closed, 0)
    else if ltb hwm (q.bytes + charge frame) && not (is_empty q.items)
    then overflow policy hwm frame q
    else (enqueue frame q.items q.bytes q, queued, 0)

pub data Popped : Type 0 where
  popped : OutboundFrame → Popped
  ended waits : Popped

abbrev ended_if : Bool → Popped
ended_if true = ended
ended_if false = waits

unfoldable pub pop_from : List OutboundFrame → Mailbox → Mailbox × Popped
pop_from [] q = (q, ended_if q.closed)
pop_from (f ∷ fs) q = (record q { items = fs; bytes = q.bytes - charge f }, popped f)

-- One round of the loop of `pop`; `waits` is where it awaits a notification and goes round again.
unfoldable pub pop : Mailbox → Mailbox × Popped
unfolding pop_from
pop q = pop_from q.items q

unfoldable pub close : Mailbox → Mailbox
close q = record q { closed = true }

-- The calls that a mailbox can see.
pub data Call : Type 0 where
  pushes : OutboundFrame → Call
  pops closes : Call

-- The mailbox, the frames that came out of it, and the count of the frames discarded.
pub record World : Type 0 where
  pub mailbox : Mailbox
  pub sent : List OutboundFrame
  pub drops : ℕ

unfoldable pub send : Mailbox × Popped → World → World
send (q, popped f) w = record w { mailbox = q; sent = w.sent ++ (f ∷ []) }
send (q, ended) w = record w { mailbox = q }
send (q, waits) w = record w { mailbox = q }

unfoldable pub call : BackpressurePolicy → ℕ → Call → World → World
unfolding send
call policy hwm (pushes f) w =
    let (q, outcome, n) = push policy hwm f w.mailbox in
    record w { mailbox = q; drops = w.drops + n }
call policy hwm pops w = send (pop w.mailbox) w
call policy hwm closes w = record w { mailbox = close w.mailbox }

unfoldable pub calls : BackpressurePolicy → ℕ → List Call → World → World
calls policy hwm [] w = w
calls policy hwm (c ∷ cs) w = calls policy hwm cs (call policy hwm c w)

abbrev pub fresh : World
unfolding new
fresh = record { mailbox = new; sent = []; drops = 0 }
