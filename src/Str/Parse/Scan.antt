-- ===== src/Str/Parse/Scan.antt =====
-- The loops of d4np_str_parse_int over spaces and digits.
use egl_utils_c.Base.{
  ℕ, ◌+◌, ◌-◌, ◌*◌, ◌/◌, ◌≤◌, ◌<◌, ◌≡◌, refl, subst, arith, Bool, true, false, Option, none, some,
  List, [], ◌∷◌, ◌++◌, Bytes, ltb, leb, length, Bool-cases, inl, inr, ◌⊎◌, size_mod, add_size,
  sub_size, mul_size,
}
use egl_utils_c.Str.Parse.{
  is_space, digit_value, skip_space, accumulate, take_digit, Scanned, overflowed, stopped,
}

abbrev pub AllSpace : Bytes → Type 0
AllSpace [] = Unit {0}
AllSpace (c ∷ w) = (is_space c ≡ true) × AllSpace w

-- The characters `cs` stand for the digits `ds` to the base.
abbrev pub Digits : ℕ → Bytes → List ℕ → Type 0
Digits base [] [] = Unit {0}
Digits base [] (d ∷ ds) = ⊥
Digits base (c ∷ cs) [] = ⊥
Digits base (c ∷ cs) (d ∷ ds) = (digit_value c ≡ some d) × (d < base) × Digits base cs ds

-- The number with the digits `ds` behind those of `acc`.
unfoldable pub value_from : ℕ → ℕ → List ℕ → ℕ
value_from base acc [] = acc
value_from base acc (d ∷ ds) = value_from base (acc * base + d) ds

pub space-digit_value : (c : ℕ) → is_space c ≡ true → digit_value c ≡ none
unfolding is_space digit_value
space-digit_value c e = ground arith

pub digit-is_space : (c d : ℕ) → digit_value c ≡ some d → is_space c ≡ false
digit-is_space c d e = elim (Bool-cases (is_space c)) [
  | inl space ↦ let none_here = space-digit_value c space in absurd cc
  | inr other ↦ other
]

-- Spaces are skipped up to a byte that is none.
pub skip_space-stop :
    (w : Bytes) (c : ℕ) (x rest : Bytes)
    → AllSpace w
    → is_space c ≡ false
    → skip_space (length (w ++ (c ∷ x))) (w ++ (c ∷ (x ++ rest)))
      ≡ some (length (c ∷ x), c ∷ (x ++ rest))
unfolding skip_space
skip_space-stop [] c x rest h other = rw other refl
skip_space-stop (b ∷ w) c x rest (e, h) other = rw (e, skip_space-stop w c x rest h other) refl

pub skip_space_all :
    (w rest : Bytes) → AllSpace w → skip_space (length w) (w ++ rest) ≡ some (0, rest)
unfolding skip_space
skip_space_all [] rest h = refl
skip_space_all (b ∷ w) rest (e, h) = rw (e, skip_space_all w rest h) refl

acc-le-value_from : (base acc : ℕ) (ds : List ℕ) → 0 < base → acc ≤ value_from base acc ds
unfolding value_from
acc-le-value_from base acc [] h = omega arith
acc-le-value_from base acc (d ∷ ds) h =
    let up : acc ≤ acc * base + d = grind arith in
    omega (arith, acc-le-value_from base (acc * base + d) ds h)

-- The guard is exact.
guard :
    (limit base acc d : ℕ)
    → 0 < base
    → d ≤ limit
    → acc ≤ (limit - d) / base
    → acc * base + d ≤ limit
guard limit base acc d pos le h = grind arith

guard_over :
    (limit base acc d : ℕ)
    → 0 < base
    → d ≤ limit
    → (limit - d) / base < acc
    → limit < acc * base + d
guard_over limit base acc d pos le h = grind arith

-- Whether a digit was seen, after the digits `ds`.
abbrev pub seen : Bool → List ℕ → Bool
seen any [] = any
seen any (d ∷ ds) = true

seen-of_true : (ds : List ℕ) → seen true ds ≡ true
seen-of_true [] = refl
seen-of_true (d ∷ ds) = refl

-- The end of the loop over digits of the value `v`: at `limit` or below it has the value, and
-- above it overflows.
abbrev pub Summed : ℕ → ℕ → Bool → ℕ → Bytes → Option Scanned → Type 0
Summed limit v any k s r =
    ((v ≤ limit) × (r ≡ some (stopped v any k s))) ⊎ ((limit < v) × (r ≡ some overflowed))

-- Behind the digits there is a space, or the end.
accumulate-stop :
    (base limit : ℕ) (w rest : Bytes) (acc : ℕ) (any : Bool)
    → AllSpace w
    → accumulate base limit (length w) (w ++ rest) acc any
      ≡ some (stopped acc any (length w) (w ++ rest))
unfolding accumulate take_digit
accumulate-stop base limit [] rest acc any h = refl
accumulate-stop base limit (c ∷ w) rest acc any (e, h) = rw (space-digit_value c e) refl

pub accumulate-Summed :
    (base limit : ℕ) (cs : Bytes) (ds : List ℕ) (w rest : Bytes) (acc : ℕ) (any : Bool)
    → 0 < base
    → base ≤ limit
    → limit < size_mod
    → acc ≤ limit
    → Digits base cs ds
    → AllSpace w
    → Summed limit
        (value_from base acc ds)
        (seen any ds)
        (length w)
        (w ++ rest)
        (accumulate base limit (length (cs ++ w)) (cs ++ (w ++ rest)) acc any)
unfolding accumulate take_digit value_from
accumulate-Summed base limit [] [] w rest acc any pos le lt small h sp =
    inl (small, accumulate-stop base limit w rest acc any sp)
accumulate-Summed base limit [] (d ∷ ds) w rest acc any pos le lt small h sp = absurd h
accumulate-Summed base limit (c ∷ cs) [] w rest acc any pos le lt small h sp = absurd h
accumulate-Summed base limit (c ∷ cs) (d ∷ ds) w rest acc any pos le lt small (e, below, h) sp =
    let below_base : leb base d ≡ false = ground arith in
    let sub : sub_size limit d ≡ limit - d = omega arith in
    rw (e, below_base, sub)
      (elim (Bool-cases (ltb ((limit - d) / base) acc)) [
        | inl over ↦
            let big : limit < acc * base + d = ground (arith, guard_over limit base acc d pos) in
            rw over (inr (omega (arith, acc-le-value_from base (acc * base + d) ds pos), refl))
        | inr fits ↦
            let within : acc * base + d ≤ limit = ground (arith, guard limit base acc d pos) in
            let exact : add_size (mul_size acc base) d ≡ acc * base + d = omega arith in
            rw (fits, exact)
              (subst
                (λ b. Summed limit (value_from base (acc * base + d) ds) b (length w) (w ++ rest) (
                  accumulate base limit (length (cs ++ w)) (cs ++ (w ++ rest)) (acc * base + d)
                    true))
                (seen-of_true ds)
                (accumulate-Summed base limit cs ds w rest (acc * base + d) true pos le lt within h
                  sp))
      ])
