-- ===== src/Core/Mailbox/Account.antt =====
-- backpressure.rs: no frame that is accepted for the queue goes uncounted.
use beam_socket.Prelude.{
  ℕ, ◌+◌, ◌-◌, ◌≡◌, refl, ap, Bool, true, false, List, [], ◌∷◌, if◌then◌else◌, length,
  length-append, arith,
}
use beam_socket.Core.Mailbox.{
  BackpressurePolicy, disconnect, drop_newest, drop_oldest, OutboundFrame, charge, Mailbox, new,
  discard, overflow, push, pop_from, pop, close, ended_if, Call, pushes, pops, closes, World, send,
  call, calls, fresh,
}

-- The frames that were sent, are queued or were discarded and counted.
abbrev pub accounted : World → ℕ
accounted w = length w.sent + length w.mailbox.items + w.drops

-- The pushes that found the mailbox open.
unfoldable pub offered : BackpressurePolicy → ℕ → List Call → World → ℕ
offered policy hwm [] w = 0
offered policy hwm (pushes f ∷ cs) w =
    (if w.mailbox.closed then 0 else 1) + offered policy hwm cs (call policy hwm (pushes f) w)
offered policy hwm (pops ∷ cs) w = offered policy hwm cs (call policy hwm pops w)
offered policy hwm (closes ∷ cs) w = offered policy hwm cs (call policy hwm closes w)

discard_count :
    (hwm len : ℕ) (items : List OutboundFrame) (bytes : ℕ)
    → let (rest, left, n) = discard hwm len items bytes in length rest + n ≡ length items
unfolding discard
discard_count hwm len [] bytes = refl
discard_count hwm len (f ∷ fs) bytes =
    let ih = discard_count hwm len fs (bytes - charge f) in ground (arith, ih)

overflow_count :
    (policy : BackpressurePolicy) (hwm : ℕ) (frame : OutboundFrame) (q : Mailbox)
    → let (q', outcome, n) = overflow policy hwm frame q in length q'.items + n ≡ length q.items + 1
unfolding overflow
overflow_count disconnect hwm frame q = refl
overflow_count drop_newest hwm frame q = refl
overflow_count drop_oldest hwm frame q =
    let (rest, left, n) = discard hwm (charge frame) q.items q.bytes in
    omega (arith, length-append rest (frame ∷ []), discard_count hwm (charge frame) q.items q.bytes)

push_count :
    (policy : BackpressurePolicy) (hwm : ℕ) (frame : OutboundFrame) (q : Mailbox)
    → let (q', outcome, n) = push policy hwm frame q in
      length q'.items + n ≡ length q.items + (if q.closed then 0 else 1)
unfolding push
push_count policy hwm frame q =
    ground (arith, overflow_count policy hwm frame q, length-append q.items (frame ∷ []))

ended_count : (b : Bool) (w : World) → accounted (send (w.mailbox, ended_if b) w) ≡ accounted w
unfolding send
ended_count true w = refl
ended_count false w = refl

pop_count :
    (items : List OutboundFrame) (w : World)
    → w.mailbox.items ≡ items
    → accounted (send (pop_from items w.mailbox) w) ≡ accounted w
unfolding send pop_from
pop_count [] w e = ended_count w.mailbox.closed w
pop_count (f ∷ fs) w e = omega (arith, length-append w.sent (f ∷ []), ap length e)

calls_count :
    (policy : BackpressurePolicy) (hwm : ℕ) (cs : List Call) (w : World)
    → accounted (calls policy hwm cs w) ≡ accounted w + offered policy hwm cs w
unfolding calls offered call pop close
calls_count policy hwm [] w = omega arith
calls_count policy hwm (pushes f ∷ cs) w = omega (
  arith,
  calls_count policy hwm cs (call policy hwm (pushes f) w),
  push_count policy hwm f w.mailbox,
)
calls_count policy hwm (pops ∷ cs) w =
    omega
      (arith, calls_count policy hwm cs (call policy hwm pops w), pop_count w.mailbox.items w refl)
calls_count policy hwm (closes ∷ cs) w =
    omega (arith, calls_count policy hwm cs (call policy hwm closes w))

-- Every push on a mailbox that is open is accounted for: from a new mailbox, whatever is pushed, popped
-- and closed in any order and under each policy, the frames that were sent, those still in the queue
-- and the drops that were counted make up the number of those pushes.
pub calls-fresh_count :
    (policy : BackpressurePolicy) (hwm : ℕ) (cs : List Call)
    → accounted (calls policy hwm cs fresh) ≡ offered policy hwm cs fresh
unfolding new
calls-fresh_count policy hwm cs = omega (arith, calls_count policy hwm cs fresh)
