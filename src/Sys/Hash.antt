-- ===== src/Sys/Hash.antt =====
-- d4np/sys/hash.h and hash.c: 64-bit FNV-1a. uint64_t products are taken modulo 2^64.
pub mod Concat
mod Tests
use Prim.Native.Nat.{bit_xor}
use egl_utils_c.Base.{ℕ, zero, suc, Option, none, some, [], ◌∷◌, Bytes, mul_size, ◌>>=◌}
use egl_utils_c.Str.View.{strlen}

abbrev pub prime : ℕ
prime = 1099511628211

abbrev pub offset_basis : ℕ
offset_basis = 14695981039346656037

-- The loop over the `n` bytes left; reading past the data is undefined behaviour.
unfoldable pub rounds : ℕ → ℕ → Bytes → Option ℕ
rounds h zero p = some h
rounds h (suc n) [] = none
rounds h (suc n) (c ∷ p) = rounds (mul_size (bit_xor h c) prime) n p

unfoldable pub fnv1a_continue : ℕ → Option Bytes → ℕ → Option ℕ
unfolding rounds
fnv1a_continue seed none size = some seed
fnv1a_continue seed (some p) size = rounds seed size p

unfoldable pub fnv1a : Option Bytes → ℕ → Option ℕ
unfolding fnv1a_continue
fnv1a p size = fnv1a_continue offset_basis p size

unfoldable pub fnv1a_str : Option Bytes → Option ℕ
unfolding fnv1a strlen
fnv1a_str none = fnv1a none 0
fnv1a_str (some s) = do n ← strlen s; fnv1a (some s) n
