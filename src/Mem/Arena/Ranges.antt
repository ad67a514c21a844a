-- ===== src/Mem/Arena/Ranges.antt =====
-- The ranges that a sequence of d4np_arena_alloc calls hands out, and their addresses.
use egl_utils_c.Base.{
  ℕ, zero, suc, subst, ◌+◌, ◌%◌, ◌^◌, ◌≤◌, ◌<◌, ◌≡◌, refl, arith, Option, none, some, List, [], ◌∷◌,
  inl, inr,
}
use egl_utils_c.Mem.Arena.{Arena, alloc}
use egl_utils_c.Mem.Arena.Align.{grain}
use egl_utils_c.Mem.Arena.Alloc.{IsValid, Allocated, alloc-Allocated}

-- A request: its size, and its alignment, a power of two up to 2^63 or 0.
pub record Request : Type 0 where
  pub size : ℕ
  pub align : ℕ
  pub bits : ℕ
  pub bits_le : bits ≤ 63
  pub pow : grain align ≡ 2 ^ bits

-- Ranges (start, size) one behind the other from `lo` to `hi`, with no overlap.
abbrev pub InOrder : ℕ → ℕ → List (ℕ × ℕ) → Type 0
InOrder lo hi [] = lo ≤ hi
InOrder lo hi ((p, n) ∷ rs) = (lo ≤ p) × (0 < n) × InOrder (p + n) hi rs

abbrev pub granted : ℕ → Option ℕ → List (ℕ × ℕ) → List (ℕ × ℕ)
granted size none rs = rs
granted size (some p) rs = (p, size) ∷ rs

module _ {S : Type 0} where
  -- The ranges that the calls hand out; a call that returns NULL hands out none.
  unfoldable pub ranges : Option (Arena S) → List Request → List (ℕ × ℕ)
  ranges arena [] = []
  ranges arena (r ∷ rs) =
      let (p, arena') = alloc arena r.size r.align in granted r.size p (ranges arena' rs)

  -- The ranges handed out by any sequence of allocations from a valid arena do not overlap: each
  -- starts at or behind the end of the one before, and all lie between the offset and the capacity.
  pub ranges-InOrder :
      (rs : List Request) (arena : Arena S)
      → IsValid arena
      → InOrder arena.offset arena.capacity (ranges (some arena) rs)
  unfolding ranges
  ranges-InOrder [] arena v = v.within
  ranges-InOrder (r ∷ rs) arena v =
      go (λ a va. ranges-InOrder rs a va) _
        (alloc-Allocated r.bits r.size r.align arena v r.bits_le r.pow)
    where
      go :
          ((a : Arena S) → IsValid a → InOrder a.offset a.capacity (ranges (some a) rs))
          → (o : Option ℕ × Option (Arena S)) → Allocated r.bits r.size arena o
          → InOrder arena.offset arena.capacity (granted r.size o.0 (ranges o.1 rs))
      go rest (p, out) (inl (failed, same, _)) = rw (failed, same) (rest arena v)
      go rest (p, out) (inr (q, got, moved, least, pos, fits)) =
          rw (got, moved)
            (
              least.from,
              pos,
              rest (record arena { offset = q + r.size })
                  (record { within = fits; capacity_lt = v.capacity_lt }),
            )

near_aligned :
    (address k q : ℕ) → address % 16 ≡ 0 → k ≤ 4 → q % 2 ^ k ≡ 0 → (address + q) % 2 ^ k ≡ 0
near_aligned address zero q whole le eq = omega arith
near_aligned address (suc zero) q whole le eq = omega arith
near_aligned address (suc (suc zero)) q whole le eq = omega arith
near_aligned address (suc (suc (suc zero))) q whole le eq = omega arith
near_aligned address (suc (suc (suc (suc zero)))) q whole le eq = omega arith
near_aligned address (suc (suc (suc (suc (suc k))))) q whole le eq = absurd (omega arith)

module _ {S : Type 0} where
  offset_aligned :
      (arena : Arena S) (k size align p : ℕ) (out : Option (Arena S))
      → IsValid arena
      → k ≤ 63
      → grain align ≡ 2 ^ k
      → alloc (some arena) size align ≡ (some p, out)
      → p % 2 ^ k ≡ 0
  offset_aligned arena k size align p out v le e got =
      go _ got (alloc-Allocated k size align arena v le e)
    where
      go :
          (o : Option ℕ × Option (Arena S))
          → o ≡ (some p, out)
          → Allocated k size arena o
          → p % 2 ^ k ≡ 0
      go (p', out') same (inl (failed, _, _)) = cc
      go (p', out') same (inr (q, is, _, least, _, _)) =
          let q-p : q ≡ p = cc in subst (λ t. t % 2 ^ k ≡ 0) q-p least.aligned

  -- The block starts at a multiple of 16, the alignment that init asks for. Then the address of a
  -- range that d4np_arena_alloc returns has the alignment 2^k that was requested, for k up to 4.
  pub alloc-address :
      (arena : Arena S) (address k size align p : ℕ) (out : Option (Arena S))
      → IsValid arena
      → address % 16 ≡ 0
      → k ≤ 4
      → grain align ≡ 2 ^ k
      → alloc (some arena) size align ≡ (some p, out)
      → (address + p) % 2 ^ k ≡ 0
  alloc-address arena address k size align p out v whole le e got =
      near_aligned address k p whole le
        (offset_aligned arena k size align p out v (omega arith) e got)

  -- A wider alignment is kept for the offset alone: over a block at an odd multiple of 16 each range
  -- requested with alignment 32 starts at an address that is 16 more than a multiple of 32.
  pub alloc_misaligned :
      (arena : Arena S) (address size p : ℕ) (out : Option (Arena S))
      → IsValid arena
      → address % 32 ≡ 16
      → alloc (some arena) size 32 ≡ (some p, out)
      → (address + p) % 32 ≡ 16
  alloc_misaligned arena address size p out v odd got =
      let whole : p % 32 ≡ 0 = offset_aligned arena 5 size 32 p out v (omega arith) refl got in
      omega arith
