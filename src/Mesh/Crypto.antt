-- ===== src/Mesh/Crypto.antt =====
-- crates/mesh/src/crypto.rs: the comparison of MACs. SHA-256 and HMAC are crates of their own and are
-- parameters where they are used.
use beam_socket.Prelude.{
  ==_iff, ==→eq, ℕ, zero, suc, ◌<◌, ◌≡◌, ◌↔◌, refl, ap, Bool, true, false, ◌&&◌, List, [], ◌∷◌, ltb,
  ◌==◌, if◌then◌else◌, length, All, arith, Bool-cases, inl, inr,
}
use Prim.Native.Nat.{bit_xor, bit_or}
use beam_socket.Prelude.Bytes.{Bytes, IsByte}

-- `for i in 0..a.len() { diff |= a[i] ^ b[i]; }`, for two buffers of one length.
diff_loop : Bytes → Bytes → ℕ → ℕ
diff_loop [] b diff = diff
diff_loop (x ∷ a) [] diff = diff
diff_loop (x ∷ a) (y ∷ b) diff = diff_loop a b (bit_or diff (bit_xor x y))

unfoldable pub constant_time_eq : Bytes → Bytes → Bool
unfolding diff_loop
constant_time_eq a b = if length a == length b then diff_loop a b 0 == 0 else false

-- A test of all bytes, or of all pairs of them, is run and then read off.
every_byte : (ℕ → Bool) → ℕ → Bool
every_byte test zero = true
every_byte test (suc top) = if test top then every_byte test top else false

every_byte-holds :
    (test : ℕ → Bool) (top b : ℕ) → b < top → every_byte test top ≡ true → test b ≡ true
unfolding every_byte
every_byte-holds test zero b below run = absurd (omega arith)
every_byte-holds test (suc top) b below run = elim (Bool-cases (b == top)) [
  | inl e ↦ rw (==→eq b top e) (ground arith)
  | inr e ↦ every_byte-holds test top b (ground arith) (ground arith)
]

abbrev agree : Bool → Bool → Bool
agree true b = b
agree false true = false
agree false false = true

-- An exclusive or is 0 on equal bytes alone, an or is 0 on zeros alone, and both are bytes.
abbrev bit_facts : ℕ → ℕ → Bool
bit_facts x y =
    agree (bit_xor x y == 0) (x == y)
    && ltb (bit_xor x y) 256
    && (agree (bit_or x y == 0) ((x == 0) && (y == 0)) && ltb (bit_or x y) 256)

bit_table : every_byte (λ x. every_byte (bit_facts x) 256) 256 ≡ true
unfolding every_byte
bit_table = refl

bit_facts_hold : (x y : ℕ) → IsByte x → IsByte y → bit_facts x y ≡ true
bit_facts_hold x y h k =
    every_byte-holds (bit_facts x) 256 y k
      (every_byte-holds (λ x. every_byte (bit_facts x) 256) 256 x h bit_table)

xor_facts :
    (x y : ℕ)
    → IsByte x
    → IsByte y
    → (bit_xor x y ≡ 0 → x ≡ y) × (x ≡ y → bit_xor x y ≡ 0) × (bit_xor x y < 256)
xor_facts x y h k =
    let t = bit_facts_hold x y h k in ((λ e. ground arith), (λ e. ground arith), ground arith)

or_facts :
    (x y : ℕ)
    → IsByte x
    → IsByte y
    → (bit_or x y ≡ 0 → (x ≡ 0) × (y ≡ 0)) × (x ≡ 0 → y ≡ 0 → bit_or x y ≡ 0) × (bit_or x y < 256)
or_facts x y h k =
    let t = bit_facts_hold x y h k in ((λ e. ground arith), (λ e d. ground arith), ground arith)

diff_loop_lem :
    (a b : Bytes) (diff : ℕ)
    → length a ≡ length b
    → All IsByte a
    → All IsByte b
    → diff < 256
    → (diff_loop a b diff ≡ 0) ↔ ((diff ≡ 0) × (a ≡ b))
unfolding diff_loop
diff_loop_lem [] [] diff e h k d = (λ z. (z, refl), λ z. z.0)
diff_loop_lem [] (y ∷ b) diff e h k d = absurd (omega arith)
diff_loop_lem (x ∷ a) [] diff e h k d = absurd (omega arith)
diff_loop_lem (x ∷ a) (y ∷ b) diff e h k d =
    let (same, zero_xor, byte) = xor_facts x y h.0 k.0 in
    let (zeros, zero_or, small) = or_facts diff (bit_xor x y) d byte in
    let (there, back) = diff_loop_lem a b (bit_or diff (bit_xor x y)) (omega arith) h.1 k.1 small in
    (
      (λ z.
          let (clear, tails) = there z in
          let (none_yet, equal) = zeros clear in (none_yet, cons_path (same equal) tails)),
      λ z. back (zero_or z.0 (zero_xor (heads z.1)), tails_of z.1),
    )
  where
    cons_path : x ≡ y → a ≡ b → x ∷ a ≡ y ∷ b
    cons_path p q = cc

    heads : ◌≡◌ {A = List ℕ} (x ∷ a) (y ∷ b) → x ≡ y
    heads p = cc

    tails_of : ◌≡◌ {A = List ℕ} (x ∷ a) (y ∷ b) → a ≡ b
    tails_of p = cc

-- The comparison that looks at every byte holds of two byte strings if and only if they are equal.
pub constant_time_eq_iff :
    (a b : Bytes) → All IsByte a → All IsByte b → (constant_time_eq a b ≡ true) ↔ (a ≡ b)
unfolding constant_time_eq
constant_time_eq_iff a b h k = elim (Bool-cases (length a == length b)) [
  | inl e ↦
      let (there, back) = diff_loop_lem a b 0 (==→eq _ _ e) h k (omega arith) in
      rw e ((λ t. (there (==→eq _ 0 t)).1), λ q. (==_iff _ 0).1 (back (refl, q)))
  | inr e ↦ rw e ((λ t. absurd (cc t)), λ q. absurd (ground (arith, ap length q)))
]
