-- ===== src/Prelude/Bits.antt =====
-- `|` of fields that do not overlap, and `&` with a mask of ones.
use Prim.Native.Nat.{
  ℕ, zero, suc, ◌+◌, ◌-◌, ◌*◌, ◌/◌, ◌%◌, ◌^◌, ◌≤◌, ◌<◌, min, max, digits, bit_and, bit_or,
  bit_and-bitwise, bit_or-bitwise,
}
use mathlib.Core.Path.{◌≡◌, refl, ap, ◌∙◌}
use native.Mathlib.Omega.{arith}
use native.Mathlib.Nat.{pow-suc}

-- Rounds enough for the first number give the same, however many they are.
rounds :
    (z : ℕ → ℕ) (f : ℕ → ℕ → ℕ) (n m x y : ℕ) → x ≤ n → x ≤ m → digits z f n x y ≡ digits z f m x y
rounds z f zero zero x y h k = refl
rounds z f zero (suc m) zero y h k = refl
rounds z f zero (suc m) (suc x) y h k = absurd (omega arith)
rounds z f (suc n) zero zero y h k = refl
rounds z f (suc n) zero (suc x) y h k = absurd (omega arith)
rounds z f (suc n) (suc m) zero y h k = refl
rounds z f (suc n) (suc m) (suc x) y h k =
    ap (λ t. t * 2 + f (suc x % 2) (y % 2))
      (rounds z f n m (suc x / 2) (y / 2) (omega arith) (omega arith))

pub bit_or-digit : (x y : ℕ) → bit_or x y ≡ bit_or (x / 2) (y / 2) * 2 + max (x % 2) (y % 2)
bit_or-digit zero y = omega (arith, bit_or-bitwise 0 y, bit_or-bitwise 0 (y / 2))
bit_or-digit (suc x) y = omega (
  arith,
  bit_or-bitwise (suc x) y,
  bit_or-bitwise (suc x / 2) (y / 2),
  rounds (λ b. b) max x (suc x / 2) (suc x / 2) (y / 2) (omega arith) (omega arith),
)

pub bit_and-digit : (x y : ℕ) → bit_and x y ≡ bit_and (x / 2) (y / 2) * 2 + min (x % 2) (y % 2)
bit_and-digit zero y = omega (arith, bit_and-bitwise 0 y, bit_and-bitwise 0 (y / 2))
bit_and-digit (suc x) y = omega (
  arith,
  bit_and-bitwise (suc x) y,
  bit_and-bitwise (suc x / 2) (y / 2),
  rounds (λ b. zero) min x (suc x / 2) (suc x / 2) (y / 2) (omega arith) (omega arith),
)

or_zero : (n x : ℕ) → x ≤ n → bit_or x 0 ≡ x
or_zero n zero h = bit_or-bitwise 0 0
or_zero zero (suc x) h = absurd (omega arith)
or_zero (suc n) (suc x) h =
    omega (arith, bit_or-digit (suc x) 0, or_zero n (suc x / 2) (omega arith))

and_zero : (n x : ℕ) → x ≤ n → bit_and x 0 ≡ 0
and_zero n zero h = bit_and-bitwise 0 0
and_zero zero (suc x) h = absurd (omega arith)
and_zero (suc n) (suc x) h =
    omega (arith, bit_and-digit (suc x) 0, and_zero n (suc x / 2) (omega arith))

shifted : (k a : ℕ) → a * 2 ^ suc k ≡ a * 2 ^ k * 2
shifted k a = rw (pow-suc 2 k) (grind arith)

doubled : (k : ℕ) → 2 ^ suc k ≡ 2 ^ k * 2
doubled k = pow-suc 2 k

pow_pos : (k : ℕ) → 1 ≤ 2 ^ k
pow_pos zero = omega arith
pow_pos (suc k) = omega (arith, doubled k, pow_pos k)

-- A number shifted left by `k`, with a number of `k` bits.
pub bit_or_fields : (k a b : ℕ) → b < 2 ^ k → bit_or (a * 2 ^ k) b ≡ a * 2 ^ k + b
bit_or_fields zero a b h =
    let e : b ≡ 0 = omega arith in rw e (or_zero (a * 1) (a * 1) (omega arith) ∙ omega arith)
bit_or_fields (suc k) a b h =
    let half : (a * 2 ^ k * 2) / 2 ≡ a * 2 ^ k = omega arith in
    let digit = bit_or-digit (a * 2 ^ k * 2) b in
    rw (shifted k a) (
      omega (
        arith,
        doubled k,
        h,
        (rw half at digit),
        bit_or_fields k a (b / 2) (omega (arith, doubled k, h)),
      ))

-- The `k` low bits.
pub bit_and_mask : (k q r : ℕ) → r < 2 ^ k → bit_and (q * 2 ^ k + r) (2 ^ k - 1) ≡ r
bit_and_mask zero q r h = and_zero (q * 1 + r) (q * 1 + r) (omega arith) ∙ omega (arith, h)
bit_and_mask (suc k) q r h =
    let fits : r / 2 < 2 ^ k = omega (arith, doubled k, h) in
    let upper : (q * 2 ^ k * 2 + r) / 2 ≡ q * 2 ^ k + r / 2 = omega arith in
    let ones : 2 ^ suc k - 1 ≡ (2 ^ k - 1) * 2 + 1 = omega (arith, doubled k, pow_pos k) in
    let half : ((2 ^ k - 1) * 2 + 1) / 2 ≡ 2 ^ k - 1 = omega arith in
    let digit = bit_and-digit (q * 2 ^ k * 2 + r) ((2 ^ k - 1) * 2 + 1) in
    rw (shifted k q, ones)
      (omega (arith, (rw (upper, half) at digit), bit_and_mask k q (r / 2) fits))
