-- ===== src/Base/Word.antt =====
-- size_t is 64 bits wide: its sums, differences and products are taken modulo 2^64.
use Prim.Native.Nat.{ℕ, ◌+◌, ◌-◌, ◌*◌, ◌%◌, ◌^◌, ◌/◌, ◌≤◌, ◌<◌}
use mathlib.Core.Path.{◌≡◌}
use native.Mathlib.Omega.{arith}

abbrev pub size_mod : ℕ
size_mod = 2 ^ 64

-- (size_t)-1
abbrev pub size_max : ℕ
size_max = 2 ^ 64 - 1

abbrev pub add_size : ℕ → ℕ → ℕ
add_size a b = (a + b) % 2 ^ 64

abbrev pub sub_size : ℕ → ℕ → ℕ
sub_size a b = (a + 2 ^ 64 - b) % 2 ^ 64

abbrev pub mul_size : ℕ → ℕ → ℕ
mul_size a b = (a * b) % 2 ^ 64

pub mul_size_exact : (a b : ℕ) → a * b < size_mod → mul_size a b ≡ a * b
mul_size_exact a b h = omega arith

pub add_size_exact : (a b : ℕ) → a + b < size_mod → add_size a b ≡ a + b
add_size_exact a b h = omega arith

-- The overflow test `n > SIZE_MAX / k` that guards a product.
pub mul-lt_of_le_div : (n k : ℕ) → 0 < k → n ≤ size_max / k → n * k < size_mod
mul-lt_of_le_div n k pos h = grind arith
