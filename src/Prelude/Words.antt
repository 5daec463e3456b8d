-- ===== src/Prelude/Words.antt =====
-- 64-bit counters: `fetch_add`, `fetch_sub` and the wrapping operations on `usize` and `u64`.
use Prim.Native.Nat.{ℕ, ◌+◌, ◌-◌, ◌%◌, ◌^◌, ◌<◌, ◌≤◌}
use mathlib.Core.Path.{◌≡◌}
use native.Mathlib.Omega.{arith}

abbrev pub IsU64 : ℕ → Type 0
IsU64 v = v < 2 ^ 64

abbrev pub add64 : ℕ → ℕ → ℕ
add64 a b = (a + b) % 2 ^ 64

abbrev pub sub64 : ℕ → ℕ → ℕ
sub64 a b = (a + 2 ^ 64 - b) % 2 ^ 64

pub add64_exact : (a b : ℕ) → a + b < 2 ^ 64 → add64 a b ≡ a + b
add64_exact a b h = omega arith

pub sub64_exact : (a b : ℕ) → b ≤ a → a < 2 ^ 64 → sub64 a b ≡ a - b
sub64_exact a b h k = omega arith

-- Two counted amounts are counted as their sum.
pub add64-add64 : (a b c : ℕ) → add64 (add64 a b) c ≡ add64 a (b + c)
add64-add64 a b c = omega arith
