-- ===== src/Mesh/Queue/Delivery.antt =====
-- queue.rs: what goes in comes out, whole and in order, but for the frames that are counted as shed.
use beam_socket.Prelude.{
  length-append, sym, ℕ, ◌+◌, ◌≤◌, ◌≡◌, refl, ap, ◌∙◌, List, [], ◌∷◌, ◌++◌, arith, length, max,
}
use mathlib.Core.List.{append-nil, append_assoc}
use beam_socket.Prelude.Bytes.{Bytes}
use beam_socket.Prelude.Words.{sub64}
use beam_socket.Mesh.Queue.{
  PeerQueue, Call, pushes, drains, closes, push, drain_loop, drain_coalesced, close, step, run,
  delivered, accepted, flat, if_enqueued,
}

flat-append : (xs ys : List Bytes) → flat (xs ++ ys) ≡ flat xs ++ flat ys
flat-append [] ys = refl
flat-append (x ∷ xs) ys = simp (flat-append xs ys, append_assoc)

push-flat :
    (q : PeerQueue) (frame : Bytes)
    → flat (push q frame).0.inner ≡ flat q.inner ++ if_enqueued (push q frame).1 frame
unfolding push
push-flat q frame =
    ground (arith, flat-append q.inner (frame ∷ []), append-nil frame, append-nil (flat q.inner))

drain_loop-flat :
    (cap_bytes : ℕ) (fs : List Bytes) (queued : ℕ) (out : Bytes) (n : ℕ)
    → (drain_loop cap_bytes fs queued out n).out
        ++ flat (drain_loop cap_bytes fs queued out n).frames
      ≡ out ++ flat fs
unfolding drain_loop
drain_loop-flat cap_bytes [] queued out n = refl
drain_loop-flat cap_bytes (f ∷ fs) queued out n = ground (
  arith,
  drain_loop-flat cap_bytes fs (sub64 queued (length f)) (out ++ f) (n + 1),
  append_assoc out f (flat fs),
)

pub drain-flat :
    (q : PeerQueue) (out : Bytes) (cap_bytes : ℕ)
    → (drain_coalesced q out cap_bytes).1 ++ flat (drain_coalesced q out cap_bytes).0.inner
      ≡ out ++ flat q.inner
unfolding drain_coalesced
drain-flat q out cap_bytes = drain_loop-flat cap_bytes q.inner q.queued_bytes out 0

drain_loop-count :
    (cap_bytes : ℕ) (fs : List Bytes) (queued : ℕ) (out : Bytes) (n : ℕ)
    → length (drain_loop cap_bytes fs queued out n).frames
        + (drain_loop cap_bytes fs queued out n).drained
      ≡ n + length fs
unfolding drain_loop
drain_loop-count cap_bytes [] queued out n = omega arith
drain_loop-count cap_bytes (f ∷ fs) queued out n =
    ground (arith, drain_loop-count cap_bytes fs (sub64 queued (length f)) (out ++ f) (n + 1))

pub drain-count :
    (q : PeerQueue) (out : Bytes) (cap_bytes : ℕ)
    → length (drain_coalesced q out cap_bytes).0.inner + (drain_coalesced q out cap_bytes).2
      ≡ length q.inner
unfolding drain_coalesced
drain-count q out cap_bytes = omega (arith, drain_loop-count cap_bytes q.inner q.queued_bytes out 0)

-- Over any calls, what the drains handed to the writer, followed by what is still queued, is what
-- was queued at first followed by the accepted frames, in the order of the pushes.
pub delivered-run :
    (q : PeerQueue) (cs : List Call)
    → delivered q cs ++ flat (run q cs).inner ≡ flat q.inner ++ accepted q cs
unfolding delivered run accepted step close
delivered-run q [] = sym (append-nil (flat q.inner))
delivered-run q (pushes frame ∷ cs) =
    delivered-run (push q frame).0 cs
    ∙ rw (push-flat q frame) (
        append_assoc (flat q.inner) (if_enqueued (push q frame).1 frame)
          (accepted (push q frame).0 cs))
delivered-run q (drains cap_bytes ∷ cs) =
    let q' : PeerQueue = (drain_coalesced q [] cap_bytes).0 in
    let out : Bytes = (drain_coalesced q [] cap_bytes).1 in
    append_assoc out (delivered q' cs) (flat (run q' cs).inner)
    ∙ ap (◌++◌ out) (delivered-run q' cs)
    ∙ sym (append_assoc out (flat q'.inner) (accepted q' cs))
    ∙ ap (λ b. b ++ accepted q' cs) (drain-flat q [] cap_bytes)
delivered-run q (closes ∷ cs) = delivered-run (close q) cs

-- The size of the largest frame of a list.
abbrev pub largest : List Bytes → ℕ
largest [] = 0
largest (f ∷ fs) = max (length f) (largest fs)

-- Once the buffer holds something it grows within the limit; before, it takes any frame.
drain_loop-size :
    (cap_bytes : ℕ) (fs : List Bytes) (queued : ℕ) (out : Bytes) (n : ℕ)
    → (length (drain_loop cap_bytes fs queued out n).out
        ≤ max cap_bytes (max (length out) (largest fs)))
      × (n ≤ (drain_loop cap_bytes fs queued out n).drained)
unfolding drain_loop
drain_loop-size cap_bytes [] queued out n = omega arith
drain_loop-size cap_bytes (f ∷ fs) queued out n = ground (
  arith,
  drain_loop-size cap_bytes fs (sub64 queued (length f)) (out ++ f) (n + 1),
  length-append out f,
)

-- A drain into an empty buffer, as the writer makes it, takes at least one frame if there is one,
-- and fills the buffer up to `cap_bytes` or, if one frame alone is larger, up to that frame's size.
pub drain_coalesced_progress :
    (q : PeerQueue) (f : Bytes) (fs : List Bytes) (cap_bytes : ℕ)
    → q.inner ≡ f ∷ fs
    → (1 ≤ (drain_coalesced q [] cap_bytes).2)
      × (length (drain_coalesced q [] cap_bytes).1 ≤ max cap_bytes (largest q.inner))
unfolding drain_coalesced drain_loop
drain_coalesced_progress q f fs cap_bytes e =
    ground (arith, drain_loop-size cap_bytes fs (sub64 q.queued_bytes (length f)) f 1)
