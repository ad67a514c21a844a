-- ===== src/Str/Parse/Print.antt =====
-- The numerals of the integers, which d4np_str_parse_int reads back.
use egl_utils_c.Base.{
  ℕ, zero, suc, ◌+◌, ◌*◌, ◌/◌, ◌%◌, ◌≤◌, ◌<◌, ◌≡◌, refl, sym, ap, subst, ◌∙◌, arith, some, List, [],
  ◌∷◌, ◌++◌, Bytes, ltb, if◌then◌else◌, ◌^◌, map, Bool-cases, inl, inr,
}
use native.Mathlib.Nat.{div-add-mod}
use egl_utils_c.Base.Integers.{ℤ, pos, negsuc}
use egl_utils_c.Core.Status.{ok}
use egl_utils_c.Str.View.{View}
use egl_utils_c.Str.View.SplitNext.{text, IsReadable}
use egl_utils_c.Str.Parse.{digit_value, parse_int}
use egl_utils_c.Str.Parse.Scan.{Digits, value_from}
use egl_utils_c.Str.Parse.Number.{Sign, unsigned, minus, sign_bytes, Parsed, parse_int-Parsed}

-- The character of a digit below 36.
abbrev pub digit_char : ℕ → ℕ
digit_char d = if ltb d 10 then 48 + d else 87 + d

-- The digits of a number, the most significant first, on fuel.
unfoldable pub to_digits : ℕ → ℕ → ℕ → List ℕ
to_digits zero base n = n ∷ []
to_digits (suc fuel) base n =
    let higher = to_digits fuel base (n / base) in
    if ltb n base then n ∷ [] else higher ++ (n % base ∷ [])

abbrev pub numeral_of : ℕ → ℕ → Bytes
numeral_of base n = map digit_char (to_digits n base n)

unfoldable pub print : ℕ → ℤ → Bytes
print base (pos n) = numeral_of base n
print base (negsuc n) = 45 ∷ numeral_of base (suc n)

digit_value-digit_char : (d : ℕ) → d < 36 → digit_value (digit_char d) ≡ some d
unfolding digit_value
digit_value-digit_char d h = ground arith

value_from_snoc :
    (base acc : ℕ) (ds : List ℕ) (d : ℕ)
    → value_from base acc (ds ++ (d ∷ [])) ≡ value_from base acc ds * base + d
unfolding value_from
value_from_snoc base acc [] d = refl
value_from_snoc base acc (e ∷ ds) d = value_from_snoc base (acc * base + e) ds d

half-lt : (n base fuel : ℕ) → 2 ≤ base → base ≤ n → n ≤ suc fuel → n / base ≤ fuel
half-lt n base fuel two le h = grind arith

to_digits-value_from :
    (fuel base n : ℕ) → 2 ≤ base → n ≤ fuel → value_from base 0 (to_digits fuel base n) ≡ n
unfolding to_digits
to_digits-value_from zero base n two h = unfold value_from in omega arith
to_digits-value_from (suc fuel) base n two h = elim (Bool-cases (ltb n base)) [
  | inl small ↦ rw small (unfold value_from in omega arith)
  | inr large ↦
      let le : base ≤ n = ground arith in
      let ih = to_digits-value_from fuel base (n / base) two (half-lt n base fuel two le h) in
      rw (large, value_from_snoc base 0 (to_digits fuel base (n / base)) (n % base), ih)
        (grind (arith, div-add-mod n base))
]

AllBelow : ℕ → List ℕ → Type 0
AllBelow base [] = Unit {0}
AllBelow base (d ∷ ds) = (d < base) × AllBelow base ds

AllBelow-snoc :
    (base : ℕ) (ds : List ℕ) (d : ℕ) → AllBelow base ds → d < base → AllBelow base (ds ++ (d ∷ []))
unfolding AllBelow
AllBelow-snoc base [] d h lt = (lt, tt)
AllBelow-snoc base (e ∷ ds) d (h, hs) lt = (h, AllBelow-snoc base ds d hs lt)

to_digits-AllBelow : (fuel base n : ℕ) → 2 ≤ base → n ≤ fuel → AllBelow base (to_digits fuel base n)
unfolding to_digits AllBelow
to_digits-AllBelow zero base n two h = (omega arith, tt)
to_digits-AllBelow (suc fuel) base n two h = elim (Bool-cases (ltb n base)) [
  | inl small ↦ rw small (ground arith, tt)
  | inr large ↦
      let le : base ≤ n = ground arith in
      rw large (
        AllBelow-snoc base (to_digits fuel base (n / base)) (n % base)
          (to_digits-AllBelow fuel base (n / base) two (half-lt n base fuel two le h))
          (grind arith))
]

map-digit_char-Digits :
    (base : ℕ) (ds : List ℕ) → base ≤ 36 → AllBelow base ds → Digits base (map digit_char ds) ds
unfolding AllBelow
map-digit_char-Digits base [] h below = tt
map-digit_char-Digits base (d ∷ ds) h (lt, below) =
    (digit_value-digit_char d (omega arith), lt, map-digit_char-Digits base ds h below)

to_digits_cons : (fuel base n : ℕ) → (d : ℕ) × (ds : List ℕ) × (to_digits fuel base n ≡ d ∷ ds)
unfolding to_digits
to_digits_cons zero base n = (n, [], refl)
to_digits_cons (suc fuel) base n = elim (Bool-cases (ltb n base)) [
  | inl small ↦ rw small (n, [], refl)
  | inr large ↦
      let (d, ds, e) = to_digits_cons fuel base (n / base) in
      rw (large, e) (d, ds ++ (n % base ∷ []), refl)
]

append_nil : (x : Bytes) → x ++ [] ≡ x
append_nil [] = refl
append_nil (c ∷ x) = ap (λ l. c ∷ l) (append_nil x)

read_back :
    (sv : View) (s : Sign) (base n : ℕ) (out : ℤ)
    → IsReadable sv
    → text sv ≡ sign_bytes s ++ numeral_of base n
    → 2 ≤ base
    → base ≤ 36
    → Parsed s n out (parse_int sv (pos base) (some out))
read_back sv s base n out r shown two most =
    let (d, ds, e) = to_digits_cons n base n in
    let v = to_digits-value_from n base n two (omega arith) in
    let digits : Digits base (map digit_char (d ∷ ds)) (d ∷ ds) =
      subst (λ l. Digits base (map digit_char l) l) e
        (map-digit_char-Digits base (to_digits n base n) most
          (to_digits-AllBelow n base n two (omega arith))) in
    let same : text sv ≡ sign_bytes s ++ (map digit_char (d ∷ ds) ++ []) =
      shown
      ∙ ap (λ l. sign_bytes s ++ map digit_char l) e
      ∙ ap (λ t. sign_bytes s ++ t) (sym (append_nil (map digit_char (d ∷ ds)))) in
    let value : value_from base 0 (d ∷ ds) ≡ n = ap (value_from base 0) (sym e) ∙ v in
    subst (λ m. Parsed s m out (parse_int sv (pos base) (some out))) value
      (parse_int-Parsed sv s base (digit_char d) d [] (map digit_char ds) ds [] out r same two most
        tt digits tt)

-- The range of int64_t.
abbrev pub IsInt64 : ℤ → Type 0
IsInt64 (pos n) = n < 2 ^ 63
IsInt64 (negsuc n) = n < 2 ^ 63

-- d4np_str_parse_int reads back the numeral of every int64_t in every base from 2 to 36.
pub parse_int-print :
    (sv : View) (base : ℕ) (z out : ℤ)
    → IsReadable sv
    → text sv ≡ print base z
    → 2 ≤ base
    → base ≤ 36
    → IsInt64 z
    → parse_int sv (pos base) (some out) ≡ some (ok, some z)
unfolding print
parse_int-print sv base (pos n) out r shown two most small =
    elim (read_back sv unsigned base n out r shown two most) [
      | inl (le, e) ↦ e
      | inr (lt, e) ↦ absurd (omega arith)
    ]
parse_int-print sv base (negsuc n) out r shown two most small =
    elim (read_back sv minus base (suc n) out r shown two most) [
      | inl (le, e) ↦ e
      | inr (lt, e) ↦ absurd (omega arith)
    ]
