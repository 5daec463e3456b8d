-- ===== src/Mesh/Queue/Invariant.antt =====
-- queue.rs: the byte count is exact and never passes the high-water mark.
use beam_socket.Prelude.{
  ◌∙◌, All, ◌^◌, ℕ, ◌+◌, ◌≤◌, ◌<◌, ◌≡◌, refl, List, [], ◌∷◌, ◌++◌, arith, length,
}
use beam_socket.Prelude.Bytes.{Bytes}
use beam_socket.Prelude.Words.{sub64}
use beam_socket.Mesh.Queue.{
  PeerQueue, Call, pushes, drains, closes, new, push, drain_loop, drain_coalesced, close, step, run,
  total,
}

-- Frames are shorter than 2 ^ 63 bytes, as every Rust buffer is.
pub record IsValid (q : PeerQueue) : Type 0 where
  pub exact : q.queued_bytes ≡ total q.inner
  pub bounded : q.queued_bytes ≤ q.hwm_bytes
  pub word : q.hwm_bytes < 2 ^ 63

abbrev pub IsBuffer : Bytes → Type 0
IsBuffer b = length b < 2 ^ 63

pub total-append : (xs ys : List Bytes) → total (xs ++ ys) ≡ total xs + total ys
total-append [] ys = omega arith
total-append (x ∷ xs) ys = omega (arith, total-append xs ys)

push-IsValid :
    (q : PeerQueue) (frame : Bytes) → IsBuffer frame → IsValid q → IsValid (push q frame).0
unfolding push
push-IsValid q frame b v = ground (arith, total-append q.inner (frame ∷ []))

drain_loop-queued :
    (cap_bytes : ℕ) (fs : List Bytes) (queued : ℕ) (out : Bytes) (n : ℕ)
    → queued ≡ total fs
    → queued < 2 ^ 64
    → ((drain_loop cap_bytes fs queued out n).queued
        ≡ total (drain_loop cap_bytes fs queued out n).frames)
      × ((drain_loop cap_bytes fs queued out n).queued ≤ queued)
unfolding drain_loop
drain_loop-queued cap_bytes [] queued out n e w = ground arith
drain_loop-queued cap_bytes (f ∷ fs) queued out n e w =
    ground (arith, drain_loop-queued cap_bytes fs (sub64 queued (length f)) (out ++ f) (n + 1))

drain-IsValid :
    (q : PeerQueue) (out : Bytes) (cap_bytes : ℕ)
    → IsValid q
    → IsValid (drain_coalesced q out cap_bytes).0
unfolding drain_coalesced
drain-IsValid q out cap_bytes v =
    ground (arith, drain_loop-queued cap_bytes q.inner q.queued_bytes out 0)

-- A call hands in no buffer that Rust could not hold.
abbrev pub IsCall : Call → Type 0
IsCall (pushes frame) = IsBuffer frame
IsCall (drains cap_bytes) = Unit
IsCall closes = Unit

step-IsValid : (q : PeerQueue) (c : Call) → IsCall c → IsValid q → IsValid (step q c)
unfolding step close
step-IsValid q (pushes frame) b v = push-IsValid q frame b v
step-IsValid q (drains cap_bytes) b v = drain-IsValid q [] cap_bytes v
step-IsValid q closes b v = ground arith

run-IsValid : (q : PeerQueue) (cs : List Call) → All IsCall cs → IsValid q → IsValid (run q cs)
unfolding run
run-IsValid q [] b v = v
run-IsValid q (c ∷ cs) b v = run-IsValid (step q c) cs b.1 (step-IsValid q c b.0 v)

run-hwm : (q : PeerQueue) (cs : List Call) → (run q cs).hwm_bytes ≡ q.hwm_bytes
unfolding run step push drain_coalesced close
run-hwm q [] = refl
run-hwm q (pushes frame ∷ cs) = run-hwm (push q frame).0 cs ∙ ground arith
run-hwm q (drains cap_bytes ∷ cs) = run-hwm (drain_coalesced q [] cap_bytes).0 cs
run-hwm q (closes ∷ cs) = run-hwm (close q) cs

-- Whatever calls are made on a new queue with a high-water mark below 2 ^ 63, with frames that a
-- buffer of Rust can hold, its byte count is the size of the frames that it holds, and never above
-- that mark.
pub run-new-IsBounded :
    (hwm : ℕ) (cs : List Call)
    → hwm < 2 ^ 63
    → All IsCall cs
    → ((run (new hwm) cs).queued_bytes ≡ total (run (new hwm) cs).inner)
      × (total (run (new hwm) cs).inner ≤ hwm)
unfolding new
run-new-IsBounded hwm cs w b =
    let v : IsValid (run (new hwm) cs) =
      run-IsValid (new hwm) cs b (record { exact = refl; bounded = omega arith; word = w }) in
    (v.exact, omega (arith, v.exact, v.bounded, run-hwm (new hwm) cs))
