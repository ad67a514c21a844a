-- ===== src/Str/Parse/Number.antt =====
-- d4np_str_parse_int reads a number in full.
use egl_utils_c.Base.{
  ℕ, zero, suc, ◌-◌, ◌≤◌, ◌<◌, ◌≡◌, refl, sym, ap, subst, ◌∙◌, arith, Bool, true, false, not, ◌&&◌,
  ◌||◌, Option, some, List, [], ◌∷◌, ◌++◌, Bytes, ltb, ◌==◌, ◌^◌, length, take, drop,
  take-append-drop, length-take, Bool-cases, inl, inr, ◌⊎◌, size_mod, ◌>>=◌, bytes_of,
}
use egl_utils_c.Base.Integers.{ℤ, pos, negsuc}
use egl_utils_c.Core.Status.{Status, ok, overflow}
use egl_utils_c.Str.View.{View}
use egl_utils_c.Str.View.SplitNext.{text, IsReadable}
use egl_utils_c.Str.Parse.{
  is_space, digit_value, skip_space, read_sign, byte_is, is_zero, is_x, has_hex_prefix, detect_base,
  accumulate, to_int64, negate, result, limit_of, finish, is_bad_base, parse_number, parse_at,
  parse_int,
}
use egl_utils_c.Str.Parse.Scan.{
  AllSpace, Digits, value_from, digit-is_space, skip_space-stop, skip_space_all, Summed,
  accumulate-Summed,
}

-- No sign, '+' or '-'.
pub data Sign : Type 0 where
  unsigned plus minus : Sign

abbrev pub sign_bytes : Sign → Bytes
sign_bytes unsigned = []
sign_bytes plus = 43 ∷ []
sign_bytes minus = 45 ∷ []

abbrev pub is_minus : Sign → Bool
is_minus unsigned = false
is_minus plus = false
is_minus minus = true

-- The integer with the sign and the absolute value.
abbrev pub signed : Bool → ℕ → ℤ
signed false n = pos n
signed true zero = pos 0
signed true (suc n) = negsuc n

digit_not_sign : (c d : ℕ) → digit_value c ≡ some d → (c == 43 || c == 45) ≡ false
unfolding digit_value
digit_not_sign c d e = ground arith

sign_not_space :
    (s : Sign) (c d : ℕ) (x : Bytes)
    → digit_value c ≡ some d
    → (b : ℕ) × (y : Bytes) × (sign_bytes s ++ (c ∷ x) ≡ b ∷ y) × (is_space b ≡ false)
sign_not_space unsigned c d x e = (c, x, refl, digit-is_space c d e)
sign_not_space plus c d x e = (43, c ∷ x, refl, unfold is_space in refl)
sign_not_space minus c d x e = (45, c ∷ x, refl, unfold is_space in refl)

read_sign-sign :
    (s : Sign) (c d : ℕ) (x z : Bytes)
    → digit_value c ≡ some d
    → read_sign (length (sign_bytes s ++ (c ∷ x))) (sign_bytes s ++ (c ∷ z))
      ≡ some (is_minus s, length (c ∷ x), c ∷ z)
unfolding read_sign
read_sign-sign unsigned c d x z e = rw (digit_not_sign c d e) refl
read_sign-sign plus c d x z e =
    let n : suc (suc (length x)) - 1 ≡ suc (length x) = omega arith in
    ap (λ m. some (false, m, c ∷ z)) n
read_sign-sign minus c d x z e =
    let n : suc (suc (length x)) - 1 ≡ suc (length x) = omega arith in
    ap (λ m. some (true, m, c ∷ z)) n

-- Neither a digit below 16 nor a space is an 'x'.
digit_not_x : (c d : ℕ) → digit_value c ≡ some d → d < 16 → is_x c ≡ false
unfolding digit_value
digit_not_x c d e h = ground arith

space_not_x : (c : ℕ) → is_space c ≡ true → is_x c ≡ false
unfolding is_space
space_not_x c e = ground arith

NoX : Bytes → Type 0
NoX [] = Unit {0}
NoX (c ∷ w) = is_x c ≡ false

Digits-NoX : (cs : Bytes) (ds : List ℕ) (w : Bytes) → Digits 16 cs ds → AllSpace w → NoX (cs ++ w)
unfolding NoX
Digits-NoX [] [] [] h sp = tt
Digits-NoX [] [] (c ∷ w) h (e, sp) = space_not_x c e
Digits-NoX [] (d ∷ ds) w h sp = absurd h
Digits-NoX (c ∷ cs) [] w h sp = absurd h
Digits-NoX (c ∷ cs) (d ∷ ds) w (e, lt, h) sp = digit_not_x c d e lt

no_hex_prefix :
    (c : ℕ) (x rest : Bytes)
    → NoX x
    → has_hex_prefix (length (c ∷ x)) (c ∷ (x ++ rest)) ≡ some false
unfolding has_hex_prefix byte_is NoX
no_hex_prefix c [] rest h = refl
no_hex_prefix c (b ∷ x) rest h =
    let two : ltb 1 (suc (suc (length x))) ≡ true = ground arith in
    let one : ltb 0 (suc (suc (length x))) ≡ true = ground arith in
    elim (Bool-cases (is_zero c)) [
      | inl z ↦ rw (two, one, z, h) refl
      | inr nz ↦ rw (two, one, nz) refl
    ]

-- Digits to a base from 2 to 36 leave the base as it is.
detect_base-Digits :
    (base c d : ℕ) (cs : Bytes) (ds : List ℕ) (w rest : Bytes)
    → 2 ≤ base
    → Digits base (c ∷ cs) (d ∷ ds)
    → AllSpace w
    → detect_base base (length (c ∷ (cs ++ w))) (c ∷ ((cs ++ w) ++ rest))
      ≡ some (base, length (c ∷ (cs ++ w)), c ∷ ((cs ++ w) ++ rest))
unfolding detect_base
detect_base-Digits base c d cs ds w rest two (e, lt, h) sp =
    let nonzero : (base == 0) ≡ false = ground arith in
    elim (Bool-cases (base == 16)) [
      | inr other ↦ rw (nonzero, other) refl
      | inl sixteen ↦
          let is : base ≡ 16 = ground arith in
          let plain =
            no_hex_prefix c (cs ++ w) rest
              (Digits-NoX cs ds w (subst (λ b. Digits b cs ds) is h) sp) in
          rw (nonzero, sixteen, plain) refl
    ]

append_assoc : (x y z : Bytes) → (x ++ y) ++ z ≡ x ++ (y ++ z)
append_assoc [] y z = refl
append_assoc (c ∷ x) y z = ap (λ l. c ∷ l) (append_assoc x y z)

result-signed :
    (s : Sign) (v : ℕ) → v ≤ limit_of (is_minus s) → result (is_minus s) v ≡ signed (is_minus s) v
unfolding result to_int64 negate
result-signed unsigned v h = let small : ltb v (2 ^ 63) ≡ true = ground arith in rw small refl
result-signed plus v h = let small : ltb v (2 ^ 63) ≡ true = ground arith in rw small refl
result-signed minus v h = elim (Bool-cases (v == 2 ^ 63)) [
  | inl least ↦ let is : v ≡ 2 ^ 63 = ground arith in rw least (ap (signed true) (sym is))
  | inr other ↦ let small : ltb v (2 ^ 63) ≡ true = ground arith in rw (other, small) (negated v)
]
  where
    negated : (n : ℕ) → negate (pos n) ≡ signed true n
    negated zero = refl
    negated (suc n) = refl

-- The loop and what follows it, behind the sign and the prefix.
unfoldable behind_sign : Bool → ℕ → ℤ → Option (ℕ × ℕ × Bytes) → Option (Status × Option ℤ)
behind_sign negative base out found = do
  (base', k2, s2) ← found
  scanned ← accumulate base' (limit_of negative) k2 s2 0 false
  finish negative out scanned

parse_number-sign :
    (s : Sign) (base c d : ℕ) (out : ℤ) (x z : Bytes)
    → digit_value c ≡ some d
    → parse_number base out (length (sign_bytes s ++ (c ∷ x)), sign_bytes s ++ (c ∷ z))
      ≡ behind_sign (is_minus s) base out (detect_base base (length (c ∷ x)) (c ∷ z))
unfolding parse_number behind_sign
parse_number-sign unsigned base c d out x z e = rw (read_sign-sign unsigned c d x z e) refl
parse_number-sign plus base c d out x z e =
    let n : suc (suc (length x)) - 1 ≡ suc (length x) = omega arith in
    ap (λ m. behind_sign false base out (detect_base base m (c ∷ z))) n
parse_number-sign minus base c d out x z e =
    let n : suc (suc (length x)) - 1 ≡ suc (length x) = omega arith in
    ap (λ m. behind_sign true base out (detect_base base m (c ∷ z))) n

-- How the parse of a number with the sign and the absolute value `v` ends.
abbrev pub Parsed : Sign → ℕ → ℤ → Option (Status × Option ℤ) → Type 0
Parsed s v out r =
    ((v ≤ limit_of (is_minus s)) × (r ≡ some (ok, some (signed (is_minus s) v))))
    ⊎ ((limit_of (is_minus s) < v) × (r ≡ some (overflow, some out)))

limit-lt : (s : Sign) → (limit_of (is_minus s) < size_mod) × (36 ≤ limit_of (is_minus s))
limit-lt unsigned = (omega arith, omega arith)
limit-lt plus = (omega arith, omega arith)
limit-lt minus = (omega arith, omega arith)

behind_sign-Parsed :
    (s : Sign) (base c d : ℕ) (cs : Bytes) (ds : List ℕ) (w rest : Bytes) (out : ℤ)
    → 2 ≤ base
    → base ≤ 36
    → Digits base (c ∷ cs) (d ∷ ds)
    → AllSpace w
    → Parsed s (value_from base 0 (d ∷ ds)) out (
        behind_sign
          (is_minus s)
          base
          out
          (some (base, length (c ∷ (cs ++ w)), c ∷ ((cs ++ w) ++ rest))))
unfolding behind_sign finish
behind_sign-Parsed s base c d cs ds w rest out two most h sp =
    let (small, large) = limit-lt s in
    rw (append_assoc cs w rest) (
      go (
        accumulate-Summed base (limit_of (is_minus s)) (c ∷ cs) (d ∷ ds) w rest 0 false
          (omega arith) (omega arith) small (omega arith) h sp))
  where
    go :
        Summed (limit_of (is_minus s)) (value_from base 0 (d ∷ ds)) true (length w) (w ++ rest) (
          accumulate base
            (limit_of (is_minus s))
            (length (c ∷ (cs ++ w)))
            (c ∷ (cs ++ (w ++ rest)))
            0
            false)
        → Parsed s (value_from base 0 (d ∷ ds)) out (
            behind_sign
              (is_minus s)
              base
              out
              (some (base, length (c ∷ (cs ++ w)), c ∷ (cs ++ (w ++ rest)))))
    go (inl (le, e)) =
        inl (
          le,
          rw (e, skip_space_all w rest sp) (ap (λ n. some (ok, some n)) (result-signed s _ le)),
        )
    go (inr (lt, e)) = inr (lt, rw e refl)

-- A text with spaces around a sign and digits.
abbrev pub numeral : Bytes → Sign → Bytes → Bytes → Bytes
numeral before s cs behind = before ++ (sign_bytes s ++ (cs ++ behind))

skip_space-before :
    (before x rest : Bytes) (b : ℕ) (y : Bytes)
    → AllSpace before
    → x ≡ b ∷ y
    → is_space b ≡ false
    → skip_space (length (before ++ x)) ((before ++ x) ++ rest) ≡ some (length x, x ++ rest)
skip_space-before before x rest b y sb e other = rw (append_assoc before x rest) (
    subst
      (λ t. skip_space (length (before ++ t)) (before ++ (t ++ rest)) ≡ some (length t, t ++ rest))
      (sym e) (skip_space-stop before b y rest sb other))

numeral-Parsed :
    (s : Sign) (base c d : ℕ) (before cs : Bytes) (ds : List ℕ) (w rest : Bytes) (out : ℤ)
    → 2 ≤ base
    → base ≤ 36
    → AllSpace before
    → Digits base (c ∷ cs) (d ∷ ds)
    → AllSpace w
    → Parsed s (value_from base 0 (d ∷ ds)) out (do
      behind ←
          skip_space (length (numeral before s (c ∷ cs) w)) (numeral before s (c ∷ cs) w ++ rest)
      parse_number base out behind)
numeral-Parsed s base c d before cs ds w rest out two most sb h sp =
    let (b, y, e, other) = sign_not_space s c d (cs ++ w) h.0 in
    let skip = skip_space-before before (sign_bytes s ++ (c ∷ (cs ++ w))) rest b y sb e other in
    rw
      (
        skip,
        append_assoc (sign_bytes s) (c ∷ (cs ++ w)) rest,
        parse_number-sign s base c d out (cs ++ w) ((cs ++ w) ++ rest) h.0,
        detect_base-Digits base c d cs ds w rest two h sp,
      )
      (behind_sign-Parsed s base c d cs ds w rest out two most h sp)

pub parse_int-Parsed :
    (sv : View) (s : Sign) (base c d : ℕ) (before cs : Bytes) (ds : List ℕ) (w : Bytes) (out : ℤ)
    → IsReadable sv
    → text sv ≡ numeral before s (c ∷ cs) w
    → 2 ≤ base
    → base ≤ 36
    → AllSpace before
    → Digits base (c ∷ cs) (d ∷ ds)
    → AllSpace w
    → Parsed s (value_from base 0 (d ∷ ds)) out (parse_int sv (pos base) (some out))
unfolding parse_int parse_at is_bad_base
parse_int-Parsed sv s base c d before cs ds w out r shown two most sb h sp =
    let good : (not (base == 0) && (ltb base 2 || ltb 36 base)) ≡ false = ground arith in
    rw (r.at, good, len, whole)
      (numeral-Parsed s base c d before cs ds w (drop sv.len r.start) out two most sb h sp)
  where
    prefix : take sv.len r.start ≡ numeral before s (c ∷ cs) w
    prefix = ap (λ p. take sv.len (bytes_of p)) (sym r.at) ∙ shown

    whole : r.start ≡ numeral before s (c ∷ cs) w ++ drop sv.len r.start
    whole = sym (take-append-drop sv.len r.start) ∙ ap (λ t. t ++ drop sv.len r.start) prefix

    len : sv.len ≡ length (numeral before s (c ∷ cs) w)
    len = omega (arith, length-take sv.len r.start, r.inside, ap length prefix)
