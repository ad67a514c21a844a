-- ===== src/Base/Pow2.antt =====
-- The doubling loop of `next_pow2_at_least` in ring_buffer.c and hashmap.c: `cap` doubles until it
-- reaches `n`, or until another doubling would pass the word, at 2^63. From 1 it doubles at most 63
-- times, and looks at 64 values.
use Prim.Native.Nat.{ℕ, zero, suc, ◌+◌, ◌/◌, ◌^◌, ◌≤◌, ◌<◌}
use mathlib.Core.Path.{◌≡◌, refl, ap}
use mathlib.Core.Logic.{◌⊎◌, inl, inr}
use mathlib.Core.Bool.{true, false}
use mathlib.Core.Option.{Option, none, some}
use native.Mathlib.Omega.{arith}
use native.Mathlib.Nat.{two-pow-succ, pow-le-pow_right}
use egl_utils_c.Base.Tests.{ltb, if◌then◌else◌, Bool-cases, ltb→lt, lt→ltb}
use egl_utils_c.Base.Word.{size_max, mul_size}

-- Without fuel the loop has not ended, and there is no result.
unfoldable pub double_until : ℕ → ℕ → ℕ → Option ℕ
double_until zero cap n = none
double_until (suc fuel) cap n =
    let rest = double_until fuel (mul_size cap 2) n in
    if ltb cap n then (if ltb (size_max / 2) cap then some cap else rest) else some cap

-- `c` is the least power of two, from 2^j on, that is at least `n`; or it is 2^63, where the loop
-- gives up.
pub record IsLeastPow2 (j n c : ℕ) : Type 0 where
  pub bits : ℕ
  pub pow : c ≡ 2 ^ bits
  pub from : j ≤ bits
  pub bits_le : bits ≤ 63
  pub enough : n ≤ 2 ^ 63 → n ≤ c
  pub least : (c ≡ 2 ^ j) ⊎ (c < n + n)
  pub saturated : 2 ^ 63 < n → c ≡ 2 ^ 63

-- The loop ends, and its result is that power of two.
abbrev pub Doubled : ℕ → ℕ → Option ℕ → Type 0
Doubled j n o = (c : ℕ) × (o ≡ some c) × IsLeastPow2 j n c

stopped : (j n : ℕ) → j ≤ 63 → n ≤ 2 ^ j → IsLeastPow2 j n (2 ^ j)
stopped j n le reached =
    let top = pow-le-pow_right {n = 2} (omega arith) le in
    record {
      bits = j;
      pow = refl;
      from = omega arith;
      bits_le = le;
      enough = λ h. reached;
      least = inl refl;
      saturated = λ h. absurd (omega (arith, top));
    }

saturated_at : (j n : ℕ) → j ≤ 63 → 2 ^ j ≡ 2 ^ 63 → 2 ^ 63 < n → IsLeastPow2 j n (2 ^ j)
saturated_at j n le full lt = record {
  bits = j;
  pow = refl;
  from = omega arith;
  bits_le = le;
  enough = λ h. absurd (omega arith);
  least = inl refl;
  saturated = λ h. full;
}

widen : (j n c : ℕ) → 2 ^ j < n → IsLeastPow2 (suc j) n c → IsLeastPow2 j n c
widen j n c small r = record {
  bits = r.bits;
  pow = r.pow;
  from = omega (arith, r.from);
  bits_le = r.bits_le;
  enough = r.enough;
  least = inr (omega (arith, r.least, two-pow-succ j));
  saturated = r.saturated;
}

-- With a round for each value that is left, the loop ends.
pub double_until-IsLeastPow2 :
    (fuel j n : ℕ) → j + fuel ≡ 64 → j ≤ 63 → Doubled j n (double_until fuel (2 ^ j) n)
unfolding double_until
double_until-IsLeastPow2 zero j n e le = absurd (omega arith)
double_until-IsLeastPow2 (suc fuel) j n e le = elim (Bool-cases (ltb (2 ^ j) n)) [
  | inr reached ↦ rw reached (2 ^ j, refl, stopped j n le (ground arith))
  | inl small ↦ elim order [
    | inl below ↦
        let (c, done, p) = double_until-IsLeastPow2 fuel (suc j) n (omega arith) (omega arith) in
        rw (small, more below, doubled below, done) (c, refl, widen j n c (ltb→lt _ _ small) p)
    | inr top ↦
        let full : 2 ^ j ≡ 2 ^ 63 = ap (λ (k : ℕ). 2 ^ k) top in
        let over : ltb (size_max / 2) (2 ^ j) ≡ true = lt→ltb _ _ (omega (arith, full)) in
        let big : 2 ^ 63 < n = omega (arith, full, ltb→lt _ _ small) in
        rw (small, over) (2 ^ j, refl, saturated_at j n le full big)
  ]
]
  where
    order : (j ≤ 62) ⊎ (j ≡ 63)
    order = omega arith

    lt_no : (a b : ℕ) → b ≤ a → ltb a b ≡ false
    lt_no a b h = ground arith

    more : j ≤ 62 → ltb (size_max / 2) (2 ^ j) ≡ false
    more below = lt_no _ _ (omega (arith, pow-le-pow_right {n = 2} (omega arith) below))

    doubled : j ≤ 62 → mul_size (2 ^ j) 2 ≡ 2 ^ suc j
    doubled below = omega (arith, two-pow-succ j, pow-le-pow_right {n = 2} (omega arith) below)
