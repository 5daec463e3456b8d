-- ===== src/Core/Mailbox/Bound.antt =====
-- backpressure.rs: the bytes of a mailbox are counted right and bounded.
use beam_socket.Prelude.{
  ◌⊎◌, ℕ, suc, ◌+◌, ◌-◌, ◌≤◌, ◌≡◌, ◌∙◌, refl, ap, Bool, true, false, not, ◌&&◌, List, [], ◌∷◌, ◌++◌,
  ltb, if◌then◌else◌, length, length-append, arith, inl, inr,
}
use mathlib.Core.Path.{subst⁻¹}
use beam_socket.Core.Mailbox.{
  BackpressurePolicy, disconnect, drop_newest, drop_oldest, OutboundFrame, PushOutcome, charge,
  Mailbox, new, is_empty, discard, enqueue, overflow, push, Popped, popped, ended, waits, pop_from,
  pop, close, Call, pushes, pops, closes, World, send, call, calls, fresh,
}

abbrev pub charges : List OutboundFrame → ℕ
charges [] = 0
charges (f ∷ fs) = charge f + charges fs

charges-append : (xs ys : List OutboundFrame) → charges (xs ++ ys) ≡ charges xs + charges ys
charges-append [] ys = omega arith
charges-append (x ∷ xs) ys = omega (arith, charges-append xs ys)

-- `bytes` is what the queued frames are charged together, and it is at most the high-water mark unless a
-- single frame is queued.
pub record IsBounded (hwm : ℕ) (q : Mailbox) : Type 0 where
  pub counted : q.bytes ≡ charges q.items
  pub bounded : (q.bytes ≤ hwm) ⊎ (length q.items ≤ 1)

discard_lem :
    (hwm len : ℕ) (items : List OutboundFrame) (bytes : ℕ)
    → bytes ≡ charges items
    → let (rest, left, n) = discard hwm len items bytes in
      (left ≡ charges rest) × ((left + len ≤ hwm) ⊎ (rest ≡ []))
unfolding discard
discard_lem hwm len [] bytes h = (h, inr refl)
discard_lem hwm len (f ∷ fs) bytes h =
    let ih = discard_lem hwm len fs (bytes - charge f) (omega arith) in ground (arith, ih)

enqueue-IsBounded :
    (hwm : ℕ) (frame : OutboundFrame) (items : List OutboundFrame) (bytes : ℕ) (q : Mailbox)
    → bytes ≡ charges items
    → (bytes + charge frame ≤ hwm) ⊎ (items ≡ [])
    → IsBounded hwm (enqueue frame items bytes q)
enqueue-IsBounded hwm frame items bytes q h (inl b) = record {
  counted = omega (arith, charges-append items (frame ∷ []));
  bounded = inl b;
}
enqueue-IsBounded hwm frame items bytes q h (inr e) = record {
  counted = omega (arith, charges-append items (frame ∷ []));
  bounded = inr (omega (arith, length-append items (frame ∷ []), ap length e));
}

overflow-IsBounded :
    (policy : BackpressurePolicy) (hwm : ℕ) (frame : OutboundFrame) (q : Mailbox)
    → IsBounded hwm q
    → IsBounded hwm (overflow policy hwm frame q).0
unfolding overflow
overflow-IsBounded disconnect hwm frame q v = record { counted = v.counted; bounded = v.bounded }
overflow-IsBounded drop_newest hwm frame q v = v
overflow-IsBounded drop_oldest hwm frame q v =
    let (rest, left, n) = discard hwm (charge frame) q.items q.bytes in
    let d = discard_lem hwm (charge frame) q.items q.bytes v.counted in
    enqueue-IsBounded hwm frame rest left q d.0 d.1

if_elim :
    {A : Type 0} (P : A → Type 0) (b : Bool) (x y : A)
    → (b ≡ true → P x)
    → (b ≡ false → P y)
    → P (if b then x else y)
if_elim P true x y t f = t refl
if_elim P false x y t f = f refl

fits :
    (hwm len : ℕ) (items : List OutboundFrame) (bytes : ℕ)
    → (ltb hwm (bytes + len) && not (is_empty items)) ≡ false
    → (bytes + len ≤ hwm) ⊎ (items ≡ [])
fits hwm len [] bytes h = inr refl
fits hwm len (f ∷ fs) bytes h = inl (ground arith)

push-IsBounded :
    (policy : BackpressurePolicy) (hwm : ℕ) (frame : OutboundFrame) (q : Mailbox)
    → IsBounded hwm q
    → IsBounded hwm (push policy hwm frame q).0
unfolding push
push-IsBounded policy hwm frame q v =
    if_elim (λ (r : Mailbox × PushOutcome × ℕ). IsBounded hwm r.0) q.closed _ _ (λ c. v)
      (λ c.
        if_elim (λ (r : Mailbox × PushOutcome × ℕ). IsBounded hwm r.0)
          (ltb hwm (q.bytes + charge frame) && not (is_empty q.items)) _ _
          (λ o. overflow-IsBounded policy hwm frame q v)
          (λ o.
            enqueue-IsBounded hwm frame q.items q.bytes q v.counted
              (fits hwm (charge frame) q.items q.bytes o)))

pop_from-IsBounded :
    (hwm : ℕ) (items : List OutboundFrame) (q : Mailbox)
    → q.items ≡ items
    → IsBounded hwm q
    → IsBounded hwm (pop_from items q).0
unfolding pop_from
pop_from-IsBounded hwm [] q e v = v
pop_from-IsBounded hwm (f ∷ fs) q e v =
    let counted : q.bytes ≡ charge f + charges fs = v.counted ∙ ap charges e in
    let len : length q.items ≡ suc (length fs) = ap length e in
    record { counted = omega (arith, counted); bounded = less v.bounded counted len }
  where
    less :
        (q.bytes ≤ hwm) ⊎ (length q.items ≤ 1)
        → q.bytes ≡ charge f + charges fs
        → length q.items ≡ suc (length fs)
        → (q.bytes - charge f ≤ hwm) ⊎ (length fs ≤ 1)
    less (inl b) c n = inl (omega arith)
    less (inr b) c n = inr (omega arith)

send_mailbox : (r : Mailbox × Popped) (w : World) → (send r w).mailbox ≡ r.0
unfolding send
send_mailbox (q, popped f) w = refl
send_mailbox (q, ended) w = refl
send_mailbox (q, waits) w = refl

call-IsBounded :
    (policy : BackpressurePolicy) (hwm : ℕ) (c : Call) (w : World)
    → IsBounded hwm w.mailbox
    → IsBounded hwm (call policy hwm c w).mailbox
unfolding call pop close
call-IsBounded policy hwm (pushes f) w v = push-IsBounded policy hwm f w.mailbox v
call-IsBounded policy hwm pops w v =
    subst⁻¹ (IsBounded hwm) (send_mailbox (pop w.mailbox) w)
      (pop_from-IsBounded hwm w.mailbox.items w.mailbox refl v)
call-IsBounded policy hwm closes w v = record { counted = v.counted; bounded = v.bounded }

calls-IsBounded :
    (policy : BackpressurePolicy) (hwm : ℕ) (cs : List Call) (w : World)
    → IsBounded hwm w.mailbox
    → IsBounded hwm (calls policy hwm cs w).mailbox
unfolding calls
calls-IsBounded policy hwm [] w v = v
calls-IsBounded policy hwm (c ∷ cs) w v =
    calls-IsBounded policy hwm cs (call policy hwm c w) (call-IsBounded policy hwm c w v)

-- Whatever is pushed, popped and closed on a new mailbox, in any order and under each policy: its `bytes`
-- is the sum of the charges of the frames in the queue, so that no subtraction goes below 0, and it is at
-- most the high-water mark unless the queue has a single frame.
pub calls-fresh-IsBounded :
    (policy : BackpressurePolicy) (hwm : ℕ) (cs : List Call)
    → IsBounded hwm (calls policy hwm cs fresh).mailbox
unfolding new
calls-fresh-IsBounded policy hwm cs =
    calls-IsBounded policy hwm cs fresh (record { counted = refl; bounded = inr (omega arith) })
