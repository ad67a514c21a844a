-- ===== src/Base/Bits.antt =====
-- `x & (2^k - 1)` is the remainder by 2^k, and `x & ~(2^k - 1)` on 64 bits rounds down to a
-- multiple of 2^k. Also powers of two as divisors of the word.
use Prim.Native.Nat.{
  ℕ, zero, suc, ◌+◌, ◌-◌, ◌*◌, ◌/◌, ◌%◌, ◌^◌, ◌≤◌, ◌<◌, ◌∣◌, min, bit_and, digits, bit_and-bitwise,
}
use mathlib.Core.Path.{◌≡◌, sym, ◌∙◌, ap, subst}
use mathlib.Core.Logic.{◌≢◌}
use native.Mathlib.Omega.{arith}
use egl_utils_c.Base.Word.{size_max, add_size, sub_size}
use native.Mathlib.Nat.{
  two-pow-succ, one-le-pow, mod-mod_of_dvd, dvd-mul_right, div-add-mod, mul-add-mod_self_left,
  mod-eq_of_lt, mod-le, zero-add,
}

abbrev and_digits : ℕ → ℕ → ℕ → ℕ
and_digits n a m = digits (λ b. zero) min n a m

-- The remainder by twice a number, from that of the half.
mod_double : (a p : ℕ) → 0 < p → a % (p + p) ≡ a / 2 % p * 2 + a % 2
mod_double a p pos =
    ap (λ t. t % (p + p)) whole
    ∙ mul-add-mod_self_left (p + p) (a / 2 / p) (a / 2 % p * 2 + a % 2)
    ∙ mod-eq_of_lt small
  where
    small : a / 2 % p * 2 + a % 2 < p + p
    small = omega arith

    whole : a ≡ (p + p) * (a / 2 / p) + (a / 2 % p * 2 + a % 2)
    whole = omega (arith, div-add-mod (a / 2) p)

mod_two_pow : (a k : ℕ) → a % 2 ^ suc k ≡ a / 2 % 2 ^ k * 2 + a % 2
mod_two_pow a k =
    ap (λ t. a % t) (two-pow-succ k) ∙ mod_double a (2 ^ k) (omega (arith, one-le-pow k 2))

-- The digits of `a` under a mask of `k` ones, with enough digits counted.
and_digits_low : (n k a : ℕ) → a ≤ n → and_digits n a (2 ^ k - 1) ≡ a % 2 ^ k
and_digits_low zero k zero h = omega (arith, one-le-pow k 2)
and_digits_low zero k (suc a) h = absurd (omega arith)
and_digits_low (suc n) k zero h = omega (arith, one-le-pow k 2)
and_digits_low (suc n) zero (suc a) h =
    omega (arith, and_digits_low n zero (suc a / 2) (omega arith))
and_digits_low (suc n) (suc k) (suc a) h =
    let half : (2 ^ suc k - 1) / 2 ≡ 2 ^ k - 1 = omega (arith, two-pow-succ k, one-le-pow k 2) in
    rw half (
      omega (
        arith,
        two-pow-succ k,
        one-le-pow k 2,
        and_digits_low n k (suc a / 2) (omega arith),
        mod_two_pow (suc a) k,
      ))

pub bit_and-low_mask : (a k : ℕ) → bit_and a (2 ^ k - 1) ≡ a % 2 ^ k
bit_and-low_mask a k = bit_and-bitwise a (2 ^ k - 1) ∙ and_digits_low a k a (omega arith)

-- The digits of `a` under a mask of `w - k` ones above `k` zeros.
and_digits_high :
    (n k w a : ℕ) → a ≤ n → k ≤ w → a < 2 ^ w → and_digits n a (2 ^ w - 2 ^ k) ≡ a - a % 2 ^ k
and_digits_high zero k w zero h le lt = omega arith
and_digits_high zero k w (suc a) h le lt = absurd (omega arith)
and_digits_high (suc n) k w zero h le lt = omega arith
and_digits_high (suc n) zero w (suc a) h le lt =
    omega (arith, and_digits_low (suc n) w (suc a) h, mod-eq_of_lt lt)
and_digits_high (suc n) (suc k) zero (suc a) h le lt = absurd (omega arith)
and_digits_high (suc n) (suc k) (suc w) (suc a) h le lt =
    let half : (2 ^ suc w - 2 ^ suc k) / 2 ≡ 2 ^ w - 2 ^ k =
      omega (arith, two-pow-succ k, two-pow-succ w) in
    rw half (
      omega (
        arith,
        two-pow-succ k,
        two-pow-succ w,
        and_digits_high n k w (suc a / 2) (omega arith) (omega arith)
            (omega (arith, two-pow-succ w)),
        mod_two_pow (suc a) k,
        mod-le (suc a / 2) (2 ^ k),
      ))

-- x & ~(2^k - 1) on `w` bits.
pub bit_and-high_mask : (a k w : ℕ) → k ≤ w → a < 2 ^ w → bit_and a (2 ^ w - 2 ^ k) ≡ a - a % 2 ^ k
bit_and-high_mask a k w le lt =
    bit_and-bitwise a (2 ^ w - 2 ^ k) ∙ and_digits_high a k w a (omega arith) le lt

two_pow-add : (j k : ℕ) → 2 ^ (j + k) ≡ 2 ^ j * 2 ^ k
two_pow-add zero k = rw zero-add (omega arith)
two_pow-add (suc j) k =
    let step : suc j + k ≡ suc (j + k) = omega arith in
    ap (λ t. 2 ^ t) step
    ∙ omega
        (arith, two-pow-succ (j + k), two_pow-add j k, ap (λ (t : ℕ). t * 2 ^ k) (two-pow-succ j))

pub two_pow-dvd-word : (k : ℕ) → k ≤ 64 → 2 ^ k ∣ 2 ^ 64
two_pow-dvd-word k le =
    let e : 2 ^ k * 2 ^ (64 - k) ≡ 2 ^ 64 =
      sym (two_pow-add k (64 - k))
      ∙ (let s : k + (64 - k) ≡ 64 = omega arith in ap (λ t. 2 ^ t) s) in
    subst (λ t. 2 ^ k ∣ t) e (dvd-mul_right (2 ^ k) (2 ^ (64 - k)))

-- Reducing to the word first does not change a remainder by a power of two.
pub mod_word-mod : (a k : ℕ) → k ≤ 64 → a % 2 ^ 64 % 2 ^ k ≡ a % 2 ^ k
mod_word-mod a k le = mod-mod_of_dvd (2 ^ k) a (two_pow-dvd-word k le)

-- Fewer than `c` steps apart, two indices have different remainders by `c`.
pub mod-ne_of_near : (a c i j : ℕ) → i < j → j < i + c → (a + i) % c ≢ (a + j) % c
mod-ne_of_near a c i j lt near e =
    absurd (grind (arith, div-add-mod (a + i) c, div-add-mod (a + j) c))

-- (x + 15) & ~15, where the sum does not wrap.
pub round_16 :
    (x : ℕ)
    → x ≤ size_max - 15
    → bit_and (add_size x (sub_size 16 1)) (size_max - sub_size 16 1) ≡ x + 15 - (x + 15) % 16
round_16 x le =
    let sum : add_size x (sub_size 16 1) ≡ x + 15 = omega arith in
    ap (λ a. bit_and a (size_max - 15)) sum
    ∙ bit_and-high_mask (x + 15) 4 64 (omega arith) (omega arith)

-- Where it wraps, it is 0.
pub round_16-zero :
    (x : ℕ)
    → size_max - 15 < x
    → x ≤ size_max
    → bit_and (add_size x (sub_size 16 1)) (size_max - sub_size 16 1) ≡ 0
round_16-zero x gt le =
    let masked : bit_and (add_size x (sub_size 16 1)) (size_max - 15)
        ≡ add_size x (sub_size 16 1) - add_size x (sub_size 16 1) % 16 =
      bit_and-high_mask (add_size x (sub_size 16 1)) 4 64 (omega arith) (omega arith) in
    masked ∙ omega arith
