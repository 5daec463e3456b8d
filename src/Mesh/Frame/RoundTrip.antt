-- ===== src/Mesh/Frame/RoundTrip.antt =====
-- frame.rs: `parse` reads back what `encode` writes, and accepts nothing else.
use beam_socket.Prelude.{
  take-append-drop, length-take, All, take-length, ap, ◌∙◌, length-append, ◌%◌, ◌++◌, ◌^◌, ◌<◌, ◌-◌,
  ℕ, suc, ◌+◌, ◌≤◌, ◌≡◌, refl, some, [], ◌∷◌, arith, length, take, drop,
}
use beam_socket.Mesh.Frame.{
  IsByte, le_bytes, encode, Frame, FrameKind, hello, from_u8, as_u8, parse, decode_len,
}
use beam_socket.Prelude.Bytes.{of_le_bytes-le_bytes, Bytes, of_le_bytes}
use beam_socket.Prelude.Results.{ok}

pub from_u8-as_u8 : (k : FrameKind) → from_u8 (as_u8 k) ≡ some k
unfolding from_u8 as_u8
from_u8-as_u8 hello = refl
from_u8-as_u8 _ = refl

as_u8-from_u8 : (b : ℕ) (k : FrameKind) → from_u8 b ≡ some k → as_u8 k ≡ b
unfolding from_u8 as_u8
as_u8-from_u8 b k h = ground arith

-- `&buf[HEADER_LEN..total]`.
body_slice :
    (b₀ b₁ b₂ b₃ k flags len n : ℕ) (tail : Bytes)
    → len ≡ 2 + n
    → drop 6 (take (4 + len) (b₀ ∷ b₁ ∷ b₂ ∷ b₃ ∷ k ∷ flags ∷ tail)) ≡ take n tail
body_slice b₀ b₁ b₂ b₃ k flags len n tail e =
    let six : 4 + len ≡ suc (suc (suc (suc (suc (suc n))))) = omega arith in rw six

-- A buffer whose length prefix is in range and covered parses to the bytes that it names.
parse_cons :
    (b₀ b₁ b₂ b₃ k flags n max_frame : ℕ) (tail : Bytes) (kind : FrameKind)
    → of_le_bytes (b₀ ∷ b₁ ∷ b₂ ∷ b₃ ∷ []) ≡ 2 + n
    → 2 + n ≤ max_frame
    → n ≤ length tail
    → from_u8 k ≡ some kind
    → parse (b₀ ∷ b₁ ∷ b₂ ∷ b₃ ∷ k ∷ flags ∷ tail) max_frame
      ≡ ok (record { kind = kind; flags = flags; body = take n tail })
unfolding parse decode_len
parse_cons b₀ b₁ b₂ b₃ k flags n max_frame tail kind e fits covered known =
    ground (arith, body_slice b₀ b₁ b₂ b₃ k flags (of_le_bytes (b₀ ∷ b₁ ∷ b₂ ∷ b₃ ∷ [])) n tail)

-- The encoding of a frame within the limit, with whatever follows it, parses to the frame; the
-- limit fits 32 bits.
pub parse-encode :
    (f : Frame) (rest : Bytes) (max_frame : ℕ)
    → 2 + length f.body ≤ max_frame
    → max_frame < 2 ^ 32
    → parse (encode f ++ rest) max_frame ≡ ok f
unfolding encode
parse-encode f rest max_frame fits small =
    let len : of_le_bytes (le_bytes 4 ((2 + length f.body) % 2 ^ 32)) ≡ 2 + length f.body =
      omega (arith, of_le_bytes-le_bytes 4 ((2 + length f.body) % 2 ^ 32) (omega arith)) in
    parse_cons _ _ _ _ (as_u8 f.kind) f.flags (length f.body) max_frame (f.body ++ rest) f.kind len
      fits (omega (arith, length-append f.body rest)) (from_u8-as_u8 f.kind)
    ∙ ap (λ b. ok (record { kind = f.kind; flags = f.flags; body = b })) (take-length f.body rest)

-- What a successful `parse` says of a buffer with a header.
parse_cons_ok :
    (b₀ b₁ b₂ b₃ k flags max_frame : ℕ) (tail : Bytes) (f : Frame)
    → parse (b₀ ∷ b₁ ∷ b₂ ∷ b₃ ∷ k ∷ flags ∷ tail) max_frame ≡ ok f
    → let len = of_le_bytes (b₀ ∷ b₁ ∷ b₂ ∷ b₃ ∷ []) in
      (2 ≤ len)
      × (len ≤ max_frame)
      × (len ≤ 2 + length tail)
      × (f ≡ record { kind = f.kind; flags = flags; body = take (len - 2) tail })
      × (from_u8 k ≡ some f.kind)
unfolding parse decode_len
parse_cons_ok b₀ b₁ b₂ b₃ k flags max_frame tail f h = ground (
  arith,
  body_slice b₀ b₁ b₂ b₃ k flags (of_le_bytes (b₀ ∷ b₁ ∷ b₂ ∷ b₃ ∷ []))
      (of_le_bytes (b₀ ∷ b₁ ∷ b₂ ∷ b₃ ∷ []) - 2) tail,
)

-- A buffer with no room for a header is no frame.
parse_short :
    (buf : Bytes) (max_frame : ℕ) (f : Frame) → length buf < 6 → parse buf max_frame ≡ ok f → ⊥
unfolding parse decode_len
parse_short buf max_frame f short h = ground arith

-- What parses with a header is an encoding with something behind it.
header-encode :
    (b₀ b₁ b₂ b₃ k flags max_frame : ℕ) (tail : Bytes) (f : Frame)
    → All IsByte (b₀ ∷ b₁ ∷ b₂ ∷ b₃ ∷ [])
    → parse (b₀ ∷ b₁ ∷ b₂ ∷ b₃ ∷ k ∷ flags ∷ tail) max_frame ≡ ok f
    → (rest : Bytes) × (b₀ ∷ b₁ ∷ b₂ ∷ b₃ ∷ k ∷ flags ∷ tail ≡ encode f ++ rest)
      × (2 + length f.body ≤ max_frame)
unfolding encode
header-encode b₀ b₁ b₂ b₃ k flags max_frame tail f bytes h =
    let (low, fits, covered, shape, known) = parse_cons_ok b₀ b₁ b₂ b₃ k flags max_frame tail f h in
    let n : ℕ = of_le_bytes (b₀ ∷ b₁ ∷ b₂ ∷ b₃ ∷ []) - 2 in
    let body : f.body ≡ take n tail = ap (λ g. g.body) shape in
    let size : length f.body ≡ n = ap length body ∙ length-take n tail ∙ omega arith in
    (
      drop n tail,
      ground
          (arith, as_u8-from_u8 k f.kind known, take-append-drop n tail, ap (λ g. g.flags) shape),
      omega arith,
    )

-- A buffer of bytes that `parse` accepts begins with the encoding of the frame that it returns,
-- and that frame is within the limit.
pub parse-eq_ok :
    (buf : Bytes) (max_frame : ℕ) (f : Frame)
    → All IsByte buf
    → parse buf max_frame ≡ ok f
    → (rest : Bytes) × (buf ≡ encode f ++ rest) × (2 + length f.body ≤ max_frame)
parse-eq_ok [] m f b h = absurd (parse_short [] m f (omega arith) h)
parse-eq_ok (b₀ ∷ []) m f b h = absurd (parse_short _ m f (omega arith) h)
parse-eq_ok (b₀ ∷ b₁ ∷ []) m f b h = absurd (parse_short _ m f (omega arith) h)
parse-eq_ok (b₀ ∷ b₁ ∷ b₂ ∷ []) m f b h = absurd (parse_short _ m f (omega arith) h)
parse-eq_ok (b₀ ∷ b₁ ∷ b₂ ∷ b₃ ∷ []) m f b h = absurd (parse_short _ m f (omega arith) h)
parse-eq_ok (b₀ ∷ b₁ ∷ b₂ ∷ b₃ ∷ k ∷ []) m f b h = absurd (parse_short _ m f (omega arith) h)
parse-eq_ok (b₀ ∷ b₁ ∷ b₂ ∷ b₃ ∷ k ∷ flags ∷ tail) m f b h =
    header-encode b₀ b₁ b₂ b₃ k flags m tail f (b.0, (b.1.0, (b.1.1.0, (b.1.1.1.0, tt)))) h
