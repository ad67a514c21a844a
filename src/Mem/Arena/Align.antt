-- ===== src/Mem/Arena/Align.antt =====
-- `align_up` of arena.c: the least multiple of a power of two from a value on.
use egl_utils_c.Base.{
  ℕ, ◌+◌, ◌-◌, ◌*◌, ◌/◌, ◌%◌, ◌^◌, ◌≤◌, ◌<◌, ◌≡◌, refl, ap, ◌∙◌, arith, Bool, true, false, size_mod,
  size_max, add_size, sub_size, bit_and, bit_and-high_mask, two_pow-dvd-word, ltb, ◌==◌,
  if◌then◌else◌, Bool-cases, inl, inr, ◌⊎◌,
}
use native.Mathlib.Nat.{
  one-le-pow, pow-le-pow_right, div-add-mod, mul-mod_right, mod-lt, mod-eq-zero_of_dvd,
}
use egl_utils_c.Mem.Arena.{align_up}

-- The alignment that an argument stands for: 0 is 1.
abbrev pub grain : ℕ → ℕ
grain align = if align == 0 then 1 else align

-- Of two multiples of `p`, the one below `v + p` is at most the one from `v` on.
multiple-le : (p v r q : ℕ) → r % p ≡ 0 → q % p ≡ 0 → r < v + p → v ≤ q → r ≤ q
multiple-le p v r q er eq small from = grind (arith, div-add-mod r p, div-add-mod q p)

-- `r` is the least multiple of 2^k from `value` on.
pub record IsLeastMultiple (k value r : ℕ) : Type 0 where
  pub from : value ≤ r
  pub near : r < value + 2 ^ k
  pub aligned : r % 2 ^ k ≡ 0

pub IsLeastMultiple-le :
    (k value r q : ℕ) → IsLeastMultiple k value r → value ≤ q → q % 2 ^ k ≡ 0 → r ≤ q
IsLeastMultiple-le k value r q least from eq =
    multiple-le (2 ^ k) value r q least.aligned eq least.near from

-- What align_up returns: the least multiple, or an overflow, where no multiple is below 2^64.
abbrev pub AlignedUp : ℕ → ℕ → ℕ × Bool → Type 0
AlignedUp k value (r, overflow) =
    ((overflow ≡ true) × ((q : ℕ) → value ≤ q → q % 2 ^ k ≡ 0 → size_mod ≤ q))
    ⊎ ((overflow ≡ false) × IsLeastMultiple k value r)

module _ (k value : ℕ) (k_le : k ≤ 63) (small : value < size_mod) where
  power_pos : 1 ≤ 2 ^ k
  power_pos = one-le-pow k 2 (omega arith)

  power_le : 2 ^ k ≤ 2 ^ 63
  power_le = pow-le-pow_right {n = 2} (omega arith) k_le

  word-mod : size_mod % 2 ^ k ≡ 0
  word-mod = mod-eq-zero_of_dvd (2 ^ k) (two_pow-dvd-word k (omega arith))

  round_down-IsLeastMultiple :
      value + (2 ^ k - 1) < size_mod
      → IsLeastMultiple k value (bit_and (value + (2 ^ k - 1)) (size_max - (2 ^ k - 1)))
  round_down-IsLeastMultiple fits =
      rw (mask, bit_and-high_mask total k 64 (omega arith) fits) rounded
    where
      total : ℕ
      total = value + (2 ^ k - 1)

      mask : size_max - (2 ^ k - 1) ≡ 2 ^ 64 - 2 ^ k
      mask = omega (arith, power_pos, power_le)

      quotient : total - total % 2 ^ k ≡ 2 ^ k * (total / 2 ^ k)
      quotient = omega (arith, div-add-mod total (2 ^ k))

      rounded : IsLeastMultiple k value (total - total % 2 ^ k)
      rounded = record {
        from = omega (arith, mod-lt total {m = 2 ^ k} power_pos);
        near = omega (arith, power_pos);
        aligned = ap (λ t. t % 2 ^ k) quotient ∙ mul-mod_right (2 ^ k) (total / 2 ^ k);
      }

  -- align_up rounds `value` up to the next multiple of the alignment, a power of two, and reports an
  -- overflow exactly if that multiple does not fit in 64 bits.
  pub align_up-AlignedUp :
      (align : ℕ) → grain align ≡ 2 ^ k → AlignedUp k value (align_up value align)
  unfolding align_up
  align_up-AlignedUp align e =
      let less : sub_size (2 ^ k) 1 ≡ 2 ^ k - 1 = omega (arith, power_pos, power_le) in
      rw (e, less)
        (elim (Bool-cases (ltb (add_size value (2 ^ k - 1)) value)) [
          | inl wrapped ↦ rw wrapped (
              inl (
                refl,
                λ q from eq. multiple-le (2 ^ k) value size_mod q word-mod eq (beyond wrapped) from,
              ))
          | inr exact ↦
              rw (exact, sum exact) (inr (refl, round_down-IsLeastMultiple (within exact)))
        ])
    where
      beyond : ltb (add_size value (2 ^ k - 1)) value ≡ true → size_mod < value + 2 ^ k
      beyond wrapped = ground (arith, power_pos, power_le)

      within : ltb (add_size value (2 ^ k - 1)) value ≡ false → value + (2 ^ k - 1) < size_mod
      within exact = ground (arith, power_pos, power_le)

      sum :
          ltb (add_size value (2 ^ k - 1)) value ≡ false
          → add_size value (2 ^ k - 1) ≡ value + (2 ^ k - 1)
      sum exact = omega (arith, within exact)
