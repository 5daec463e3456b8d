-- ===== src/Mesh/Frame/Prefix.antt =====
-- frame.rs: what `parse` answers when bytes are missing or the length is out of range.
use beam_socket.Prelude.{
  length-take, ◌%◌, ◌^◌, ℕ, zero, suc, ◌+◌, ◌≤◌, ◌<◌, ◌≡◌, [], ◌∷◌, arith, length, take,
}
use beam_socket.Prelude.Bytes.{of_le_bytes-le_bytes, Bytes, of_le_bytes}
use beam_socket.Mesh.Frame.{
  le_bytes, as_u8, Frame, FrameError, truncated, encode, wire_len, parse, decode_len,
}
use beam_socket.Prelude.Results.{err}

-- A length that `decode_len` refuses is refused by `parse` in the same way, whatever follows the
-- length and however little.
pub parse_refuses_length :
    (b₀ b₁ b₂ b₃ max_frame : ℕ) (tail : Bytes) (e : FrameError)
    → decode_len (of_le_bytes (b₀ ∷ b₁ ∷ b₂ ∷ b₃ ∷ [])) max_frame ≡ err e
    → parse (b₀ ∷ b₁ ∷ b₂ ∷ b₃ ∷ tail) max_frame ≡ err e
unfolding parse
parse_refuses_length b₀ b₁ b₂ b₃ max_frame tail e h = ground arith

-- A buffer that ends before its declared length is truncated.
parse_uncovered :
    (b₀ b₁ b₂ b₃ max_frame : ℕ) (tail : Bytes)
    → 2 ≤ of_le_bytes (b₀ ∷ b₁ ∷ b₂ ∷ b₃ ∷ [])
    → of_le_bytes (b₀ ∷ b₁ ∷ b₂ ∷ b₃ ∷ []) ≤ max_frame
    → length tail < of_le_bytes (b₀ ∷ b₁ ∷ b₂ ∷ b₃ ∷ [])
    → parse (b₀ ∷ b₁ ∷ b₂ ∷ b₃ ∷ tail) max_frame ≡ err truncated
unfolding parse decode_len
parse_uncovered b₀ b₁ b₂ b₃ max_frame tail low fits short = ground arith

parse_tiny : (buf : Bytes) (max_frame : ℕ) → length buf < 4 → parse buf max_frame ≡ err truncated
unfolding parse
parse_tiny buf max_frame h = ground arith

-- Every proper prefix of the encoding of a frame within the limit is `Truncated`; the limit fits
-- 32 bits.
pub parse-take-encode :
    (f : Frame) (n max_frame : ℕ)
    → 2 + length f.body ≤ max_frame
    → max_frame < 2 ^ 32
    → n < wire_len f
    → parse (take n (encode f)) max_frame ≡ err truncated
unfolding encode wire_len
parse-take-encode f zero m fits small h = parse_tiny _ m (omega arith)
parse-take-encode f (suc zero) m fits small h = parse_tiny _ m (omega arith)
parse-take-encode f (suc (suc zero)) m fits small h = parse_tiny _ m (omega arith)
parse-take-encode f (suc (suc (suc zero))) m fits small h = parse_tiny _ m (omega arith)
parse-take-encode f (suc (suc (suc (suc n)))) m fits small h =
    let tail : Bytes = as_u8 f.kind ∷ f.flags ∷ f.body in
    let len : of_le_bytes (le_bytes 4 ((2 + length f.body) % 2 ^ 32)) ≡ 2 + length f.body =
      omega (arith, of_le_bytes-le_bytes 4 ((2 + length f.body) % 2 ^ 32) (omega arith)) in
    parse_uncovered _ _ _ _ m (take n tail) (omega (arith, len)) (omega (arith, len))
      (omega (arith, len, length-take n tail))
