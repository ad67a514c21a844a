-- ===== src/Str/Parse.antt =====
-- d4np/str/parse.h and d4np_str_parse_int of parse.c. The position `i` is kept as the number of
-- bytes left, `n - i`, and the bytes from `p + i` on; reading past those is undefined behaviour,
-- the result `none`. `isspace` is that of the C locale.
pub mod Scan
pub mod Number
pub mod Print
mod Tests
use egl_utils_c.Base.{
  ℕ, zero, suc, ◌+◌, ◌-◌, ◌*◌, ◌/◌, Bool, true, false, not, ◌&&◌, ◌||◌, Option, none, some, List,
  [], ◌∷◌, Bytes, ltb, leb, ◌==◌, if◌then◌else◌, get_elem?, drop, ◌^◌, size_mod, add_size, sub_size,
  mul_size, ◌>>=◌,
}
use egl_utils_c.Base.Integers.{ℤ, pos, negsuc}
use egl_utils_c.Core.Status.{Status, ok, invalid_argument, overflow}
use egl_utils_c.Str.View.{View}

-- isspace
unfoldable pub is_space : ℕ → Bool
is_space c = (leb 9 c && leb c 13) || c == 32

-- digit_value, where `none` is -1.
unfoldable pub digit_value : ℕ → Option ℕ
digit_value c =
    if leb 48 c && leb c 57
    then some (c - 48)
    else if leb 97 c && leb c 122
    then some (c - 97 + 10)
    else if leb 65 c && leb c 90
    then some (c - 65 + 10)
    else none

unfoldable pub skip_space : ℕ → Bytes → Option (ℕ × Bytes)
unfolding is_space
skip_space zero s = some (0, s)
skip_space (suc k) [] = none
skip_space (suc k) (c ∷ s) =
    let rest = skip_space k s in if is_space c then rest else some (suc k, c ∷ s)

-- The sign, where a byte is left: whether it is '-', and the position behind it.
unfoldable pub read_sign : ℕ → Bytes → Option (Bool × ℕ × Bytes)
read_sign k [] = none
read_sign k (c ∷ s) =
    if c == 43 || c == 45 then some (c == 45, k - 1, s) else some (false, k, c ∷ s)

-- i + j < n && p[i + j] satisfies the test
unfoldable pub byte_is : (ℕ → Bool) → ℕ → ℕ → Bytes → Option Bool
byte_is test j k s = if ltb j k then (do c ← get_elem? s j; some (test c)) else some false

abbrev pub is_zero : ℕ → Bool
is_zero c = c == 48

abbrev pub is_x : ℕ → Bool
is_x c = c == 120 || c == 88

-- "0x" or "0X" stands at `i`, and both bytes are before `n`.
unfoldable pub has_hex_prefix : ℕ → Bytes → Option Bool
unfolding byte_is
has_hex_prefix k s = do
  first ← if ltb 1 k then byte_is is_zero 0 k s else some false
  if first then byte_is is_x 1 k s else some false

-- The base that the prefix gives, and the position behind "0x".
unfoldable pub detect_base : ℕ → ℕ → Bytes → Option (ℕ × ℕ × Bytes)
unfolding has_hex_prefix byte_is
detect_base base k s =
    if base == 0
    then (do
      zero_first ← byte_is is_zero 0 k s
      if zero_first
          then (do
            hex ← has_hex_prefix k s
            some (if hex then (16, k - 2, drop 2 s) else (8, k, s)))
          else some (10, k, s))
    else if base == 16
    then (do hex ← has_hex_prefix k s; some (if hex then (16, k - 2, drop 2 s) else (base, k, s)))
    else some (base, k, s)

-- How the loop over the digits ends: at a return, or behind the last digit.
pub data Scanned : Type 0 where
  overflowed : Scanned
  stopped : ℕ → Bool → ℕ → Bytes → Scanned

-- One round of the loop at a byte: `stop` is what a break gives, `next` the loop from an
-- accumulator on. uint64_t is size_t's word.
unfoldable pub take_digit :
    ℕ → ℕ → ℕ → Option Scanned → (ℕ → Option Scanned) → Option ℕ → Option Scanned
take_digit base limit acc stop next none = stop
take_digit base limit acc stop next (some d) =
    if leb base d
    then stop
    else if ltb (sub_size limit d / base) acc
    then some overflowed
    else next (add_size (mul_size acc base) d)

unfoldable pub accumulate : ℕ → ℕ → ℕ → Bytes → ℕ → Bool → Option Scanned
unfolding digit_value take_digit
accumulate base limit zero s acc any_digit = some (stopped acc any_digit 0 s)
accumulate base limit (suc k) [] acc any_digit = none
accumulate base limit (suc k) (c ∷ s) acc any_digit =
    take_digit base limit acc (some (stopped acc any_digit (suc k) (c ∷ s)))
      (λ acc'. accumulate base limit k s acc' true) (digit_value c)

-- (int64_t)acc
unfoldable pub to_int64 : ℕ → ℤ
to_int64 acc = if ltb acc (2 ^ 63) then pos acc else negsuc (2 ^ 64 - acc - 1)

-- -x, where it does not overflow.
unfoldable pub negate : ℤ → ℤ
negate (pos zero) = pos 0
negate (pos (suc n)) = negsuc n
negate (negsuc n) = pos (suc n)

unfoldable pub result : Bool → ℕ → ℤ
unfolding to_int64 negate
result negative acc =
    if negative
    then (if acc == 2 ^ 63 then negsuc (2 ^ 63 - 1) else negate (to_int64 acc))
    else to_int64 acc

abbrev pub limit_of : Bool → ℕ
limit_of negative = if negative then 2 ^ 63 else 2 ^ 63 - 1

-- What follows the loop; `out` is the object at `out` before.
unfoldable pub finish : Bool → ℤ → Scanned → Option (Status × Option ℤ)
unfolding skip_space result
finish negative out overflowed = some (overflow, some out)
finish negative out (stopped acc any_digit k s) =
    if not any_digit then some (invalid_argument, some out) else do
      (k', s') ← skip_space k s
      some (if k' == 0 then (ok, some (result negative acc)) else (invalid_argument, some out))

-- base != 0 && (base < 2 || base > 36)
unfoldable pub is_bad_base : ℤ → Bool
is_bad_base (negsuc n) = true
is_bad_base (pos base) = not (base == 0) && (ltb base 2 || ltb 36 base)

-- From the first test on `i >= n` on.
unfoldable pub parse_number : ℕ → ℤ → ℕ × Bytes → Option (Status × Option ℤ)
unfolding read_sign detect_base accumulate finish
parse_number base out (zero, s) = some (invalid_argument, some out)
parse_number base out (suc k, s) = do
  (negative, k1, s1) ← read_sign (suc k) s
  (base', k2, s2) ← detect_base base k1 s1
  scanned ← accumulate base' (limit_of negative) k2 s2 0 false
  finish negative out scanned

unfoldable pub parse_at : View → Option Bytes → ℤ → ℤ → Option (Status × Option ℤ)
unfolding skip_space is_bad_base parse_number
parse_at sv none base out = some (invalid_argument, some out)
parse_at sv (some p) (negsuc n) out = some (invalid_argument, some out)
parse_at sv (some p) (pos base) out =
    if is_bad_base (pos base)
    then some (invalid_argument, some out)
    else do behind ← skip_space sv.len p; parse_number base out behind

-- The status, and the object at `out` after the call.
unfoldable pub parse_int : View → ℤ → Option ℤ → Option (Status × Option ℤ)
unfolding parse_at
parse_int sv base none = some (invalid_argument, none)
parse_int sv base (some out) = parse_at sv sv.ptr base out
