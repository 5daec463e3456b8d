-- ===== src/Mesh/Queue/Coalesce.antt =====
-- queue.rs: how much a drain takes.
use beam_socket.Prelude.{
  length-append, ℕ, suc, ◌+◌, ◌≤◌, ◌<◌, ◌≡◌, ◌≢◌, ◌∙◌, refl, sym, ap, List, [], ◌∷◌, ◌++◌, arith,
  length, max, not, ◌&&◌, ltb, Bool-cases, inl, inr, true, false,
}
use mathlib.Core.List.{append-nil, append_assoc}
use beam_socket.Prelude.Bytes.{Bytes}
use beam_socket.Prelude.Words.{sub64}
use beam_socket.Mesh.Queue.{PeerQueue, drain_loop, drain_coalesced, flat, is_empty_buf}
use beam_socket.Mesh.Queue.Delivery.{largest}

-- The frames that do not fit: none, or the first does not fit behind what the buffer holds.
abbrev pub IsFull : ℕ → Bytes → List Bytes → Type 0
IsFull cap_bytes out [] = Unit {0}
IsFull cap_bytes out (f ∷ fs) = (out ≢ []) × (cap_bytes < length out + length f)

-- A drain of these frames behind what the buffer holds, up to a limit: which of them are left, the buffer
-- and how many were taken.
pub record Coalesced (cap_bytes : ℕ) (out : Bytes) (fs left : List Bytes) (filled : Bytes) (n : ℕ)
    : Type 0 where
  pub taken : List Bytes
  pub order : fs ≡ taken ++ left
  pub buffer : filled ≡ out ++ flat taken
  pub count : n ≡ length taken
  pub size : length filled ≤ max cap_bytes (max (length out) (largest taken))
  pub full : IsFull cap_bytes filled left

held : (out : Bytes) → not (is_empty_buf out) ≡ true → out ≢ []
held [] e is = cc e
held (b ∷ bs) e is = cc is

module _ (cap_bytes : ℕ) where
  fits :
      (out f : Bytes)
      → (not (is_empty_buf out) && ltb cap_bytes (length out + length f)) ≡ false
      → length out + length f ≤ max cap_bytes (max (length out) (length f))
  fits [] f e = omega arith
  fits (b ∷ bs) f e = ground (arith, e)

  drain_loop-Coalesced :
      (fs : List Bytes) (queued : ℕ) (out : Bytes) (n : ℕ)
      → let d = drain_loop cap_bytes fs queued out n in
        (m : ℕ) × (d.drained ≡ n + m) × Coalesced cap_bytes out fs d.frames d.out m
  unfolding drain_loop
  drain_loop-Coalesced [] queued out n = (
    0,
    omega arith,
    record {
      taken = [];
      order = refl;
      buffer = sym (append-nil out);
      count = refl;
      size = omega arith;
      full = tt;
    },
  )
  drain_loop-Coalesced (f ∷ fs) queued out n =
      elim (Bool-cases (not (is_empty_buf out) && ltb cap_bytes (length out + length f))) [
        | inl e ↦
            rw (drain_loop, e)
              (
                0,
                omega arith,
                record {
                  taken = [];
                  order = refl;
                  buffer = sym (append-nil out);
                  count = refl;
                  size = omega arith;
                  full = (held out (ground (arith, e)), ground (arith, e));
                },
              )
        | inr e ↦
            let (m, drained, c) =
              drain_loop-Coalesced fs (sub64 queued (length f)) (out ++ f) (n + 1) in
            let d = drain_loop cap_bytes fs (sub64 queued (length f)) (out ++ f) (n + 1) in
            rw (drain_loop, e)
              (
                suc m,
                omega (arith, drained),
                record {
                  taken = f ∷ c.taken;
                  order = ap (f ∷◌) c.order;
                  buffer = c.buffer ∙ append_assoc out f (flat c.taken);
                  count = omega (arith, c.count);
                  size = omega (arith, c.size, length-append out f, fits out f e);
                  full = c.full;
                },
              )
      ]

-- A drain takes frames from the front, whole and in order, until the queue is empty or the next one would
-- pass the limit behind a buffer that holds something; the buffer then has at most the limit, or what it
-- held before or one taken frame if that is more; and the number is that of the frames taken.
pub drain_coalesced_lem :
    (q : PeerQueue) (out : Bytes) (cap_bytes : ℕ)
    → let (after, filled, n) = drain_coalesced q out cap_bytes in
      Coalesced cap_bytes out q.inner after.inner filled n
unfolding drain_coalesced
drain_coalesced_lem q out cap_bytes =
    let (m, drained, c) = drain_loop-Coalesced cap_bytes q.inner q.queued_bytes out 0 in
    record {
      taken = c.taken;
      order = c.order;
      buffer = c.buffer;
      count = omega (arith, drained, c.count);
      size = c.size;
      full = c.full;
    }
