-- ===== src/Mesh/Link/Writing.antt =====
-- link.rs: the writer puts everything that is queued on the wire.
use beam_socket.Prelude.{
  some, ℕ, zero, suc, ◌+◌, ◌<◌, ◌≡◌, ◌∙◌, refl, sym, ap, List, [], ◌∷◌, ◌++◌, length, length-append,
  arith, ◌==◌, Bool-cases, inl, inr,
}
use beam_socket.Prelude.Bytes.{Bytes}
use beam_socket.Prelude.Words.{IsU64, add64}
use beam_socket.Mesh.Queue.{PeerQueue, drain_coalesced, flat}
use beam_socket.Mesh.Queue.Delivery.{drain-flat, drain-count, drain_coalesced_progress}
use beam_socket.Mesh.Link.{LinkHandle, coalesce_cap_bytes, count_write, write_all, after_writing}

no_frames : (fs : List Bytes) → length fs ≡ 0 → fs ≡ []
no_frames [] e = refl
no_frames (f ∷ fs) e = absurd (omega arith)

-- A drain takes a frame, unless there is none.
drain_some : (q : PeerQueue) → (drain_coalesced q [] coalesce_cap_bytes).2 ≡ 0 → q.inner ≡ []
drain_some q e = by_inner q.inner refl
  where
    by_inner : (fs : List Bytes) → q.inner ≡ fs → q.inner ≡ []
    by_inner [] k = k
    by_inner (f ∷ fs) k =
        absurd (omega (arith, (drain_coalesced_progress q f fs coalesce_cap_bytes k).0))

-- What the writer has done once it breaks.
pub record Written (h : LinkHandle) (res : LinkHandle × Bytes) : Type 0 where
  pub out : res.1 ≡ flat h.queue.inner
  pub empty : res.0.queue.inner ≡ []
  pub frames : res.0.counters.frames_out ≡ add64 h.counters.frames_out (length h.queue.inner)
  pub bytes : res.0.counters.bytes_out ≡ add64 h.counters.bytes_out (length (flat h.queue.inner))

-- The loop breaks within this many rounds, and has then done this.
abbrev pub Ends : ℕ → LinkHandle → Type 0
Ends fuel h = (res : LinkHandle × Bytes) × (write_all fuel h ≡ some res) × Written h res

write_all_idle :
    (fuel : ℕ) (h : LinkHandle)
    → IsU64 h.counters.frames_out
    → IsU64 h.counters.bytes_out
    → (drain_coalesced h.queue [] coalesce_cap_bytes).2 ≡ 0
    → Ends (suc fuel) h
unfolding write_all
write_all_idle fuel h u v e =
    let none_left = drain_some h.queue e in
    let count = drain-count h.queue [] coalesce_cap_bytes in
    let size : length h.queue.inner ≡ 0 = ap length none_left in
    let bytes : length (flat h.queue.inner) ≡ 0 = ap (λ fs. length (flat fs)) none_left in
    (
      (record h { queue = (drain_coalesced h.queue [] coalesce_cap_bytes).0 }, []),
      rw (write_all, e) refl,
      record {
        out = sym (ap flat none_left);
        empty = no_frames _ (omega (arith, count, size));
        frames = omega (arith, size);
        bytes = omega (arith, bytes);
      },
    )

-- However much is queued, the writer's loop breaks, in at most one round for each frame and one more, the
-- round that finds nothing; and it has then written all that was queued, whole and in order, left the queue
-- empty, and added the frames and the bytes to their 64-bit counters.
pub write_all_lem :
    (fuel : ℕ) (h : LinkHandle)
    → length h.queue.inner < fuel
    → IsU64 h.counters.frames_out
    → IsU64 h.counters.bytes_out
    → Ends fuel h
unfolding write_all
write_all_lem zero h enough u v = absurd (omega arith)
write_all_lem (suc fuel) h enough u v =
    elim (Bool-cases ((drain_coalesced h.queue [] coalesce_cap_bytes).2 == 0)) [
      | inl e ↦ write_all_idle fuel h u v (ground arith)
      | inr e ↦
          let d = drain_coalesced h.queue [] coalesce_cap_bytes in
          let count = drain-count h.queue [] coalesce_cap_bytes in
          let content = drain-flat h.queue [] coalesce_cap_bytes in
          let size : length d.1 + length (flat d.0.inner) ≡ length (flat h.queue.inner) =
            sym (length-append d.1 (flat d.0.inner)) ∙ ap length content in
          let ((last, more), ends, ih) =
            write_all_lem fuel (count_write d.0 d.1 d.2 h) (ground arith) (omega arith)
              (omega arith) in
          (
            (last, d.1 ++ more),
            rw (write_all, e) (ap (after_writing d.1) ends),
            record {
              out = ap (◌++◌ d.1) ih.out ∙ content;
              empty = ih.empty;
              frames = ih.frames ∙ omega (arith, count);
              bytes = ih.bytes ∙ omega (arith, size);
            },
          )
    ]
