-- ===== src/Str/Parse/Tests.antt =====
-- Runs of d4np_str_parse_int, and its theorems at concrete texts.
use egl_utils_c.Base.{◌≡◌, refl, arith, some, [], ◌∷◌, Bytes, length}
use egl_utils_c.Base.Integers.{pos, negsuc}
use egl_utils_c.Core.Status.{ok, invalid_argument}
use egl_utils_c.Str.View.{View}
use egl_utils_c.Str.View.SplitNext.{IsReadable}
use egl_utils_c.Str.Parse.{parse_int}
use egl_utils_c.Str.Parse.Print.{print, to_digits, parse_int-print}

abbrev view_of : Bytes → View
view_of b = record { ptr = some b; len = length b }

-- " +12 "
abbrev twelve : Bytes
twelve = 32 ∷ 43 ∷ 49 ∷ 50 ∷ 32 ∷ []

-- "0x" alone
parse_int_hex_only :
    parse_int (view_of (48 ∷ 120 ∷ [])) (pos 16) (some (pos 7))
    ≡ some (invalid_argument, some (pos 7))
unfolding parse_int
parse_int_hex_only = refl

-- "017" in base 0
parse_int_octal :
    parse_int (view_of (48 ∷ 49 ∷ 55 ∷ [])) (pos 0) (some (pos 7)) ≡ some (ok, some (pos 15))
unfolding parse_int
parse_int_octal = refl

-- "-0x1F" in base 0
parse_int_hex :
    parse_int (view_of (45 ∷ 48 ∷ 120 ∷ 49 ∷ 70 ∷ [])) (pos 0) (some (pos 7))
    ≡ some (ok, some (negsuc 30))
unfolding parse_int
parse_int_hex = refl

-- "-25"
abbrev minus_25 : Bytes
minus_25 = 45 ∷ 50 ∷ 53 ∷ []

minus_25-IsReadable : IsReadable (view_of minus_25)
minus_25-IsReadable = record {
  start = minus_25;
  at = refl;
  inside = omega arith;
  len_lt = omega arith;
}

parse_int-print_example :
    parse_int (view_of minus_25) (pos 10) (some (pos 0)) ≡ some (ok, some (negsuc 24))
unfolding print to_digits
parse_int-print_example =
    parse_int-print (view_of minus_25) 10 (negsuc 24) (pos 0) minus_25-IsReadable refl (omega arith)
      (omega arith) (omega arith)
