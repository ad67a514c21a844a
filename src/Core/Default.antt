-- ===== src/Core/Default.antt =====
-- The default allocator of d4np_allocator.c keeps the allocator contract.
use native.Mathlib.Nat.{pow-le-pow_right}
use egl_utils_c.Base.{
  ℕ, zero, suc, ◌%◌, ◌^◌, ◌≤◌, ◌≡◌, ◌≢◌, refl, arith, Option, none, some, Bytes, length,
}
use egl_utils_c.Core.Allocator.{
  IsAllocator, Keeps, SizeOf, Libc, default_alloc, default_realloc, allocator_default, max_align,
}

-- What the C standard says of `malloc` and `realloc`.
pub record IsLibc {S : Type 0} (libc : Libc S) : Type 0 where
  pub malloc_size :
      (size : ℕ) (s s' : S) (b : Bytes) → libc.malloc size s ≡ (some b, s') → length b ≡ size
  -- The blocks suit every object type, so they stand at multiples of alignof(max_align_t).
  pub malloc_aligned :
      (size : ℕ) (s s' : S) (b : Bytes)
      → libc.malloc size s ≡ (some b, s')
      → libc.address s' b % max_align ≡ 0
  pub realloc_aligned :
      (p : Option Bytes) (size : ℕ) (s s' : S) (b : Bytes)
      → libc.realloc p size s ≡ (some b, s')
      → libc.address s' b % max_align ≡ 0
  pub realloc_size :
      (p : Option Bytes) (size : ℕ) (s s' : S) (b : Bytes)
      → libc.realloc p size s ≡ (some b, s')
      → length b ≡ size
  pub realloc_keeps :
      (p : Option Bytes) (old size : ℕ) (s s' : S) (b : Bytes) (m : ℕ)
      → SizeOf p old
      → m ≤ old
      → m ≤ size
      → libc.realloc p size s ≡ (some b, s')
      → Keeps p m b

-- A multiple of 16 is one of every power of two up to 16.
aligned_16 : (x k : ℕ) → x % 16 ≡ 0 → 2 ^ k ≤ 16 → x % 2 ^ k ≡ 0
aligned_16 x zero e le = omega arith
aligned_16 x (suc zero) e le = omega arith
aligned_16 x (suc (suc zero)) e le = omega arith
aligned_16 x (suc (suc (suc zero))) e le = omega arith
aligned_16 x (suc (suc (suc (suc zero)))) e le = omega arith
aligned_16 x (suc (suc (suc (suc (suc k))))) e le =
    let wide : 2 ^ 5 ≤ 2 ^ suc (suc (suc (suc (suc k)))) =
      pow-le-pow_right {n = 2} (omega arith) {i = 5} (omega arith) in
    absurd (omega arith)

module _ {S : Type 0} (libc : Libc S) where
  default_alloc-some :
      (size align : ℕ) (s s' : S) (b : Bytes)
      → default_alloc libc size align s ≡ (some b, s')
      → (size ≢ 0) × (align ≤ max_align) × (libc.malloc size s ≡ (some b, s'))
  unfolding default_alloc
  default_alloc-some size align s s' b e = ground arith

  default_realloc-some :
      (p : Option Bytes) (old new align : ℕ) (s s' : S) (b : Bytes)
      → default_realloc libc p old new align s ≡ (some b, s')
      → (new ≢ 0) × (align ≤ max_align) × (libc.realloc p new s ≡ (some b, s'))
  unfolding default_realloc
  default_realloc-some p old new align s s' b e = ground arith

  default_alloc-zero : (align : ℕ) (s : S) → (default_alloc libc 0 align s).0 ≡ none
  unfolding default_alloc
  default_alloc-zero align s = refl

  -- Over the C library's heap the default allocator keeps the contract of d4np_allocator.h: sizes,
  -- NULL for no bytes, contents on realloc, and the alignment that was asked for, since it refuses
  -- those that the C library does not give.
  pub default-IsAllocator : IsLibc libc → IsAllocator libc.address (allocator_default libc)
  default-IsAllocator laws = record {
    alloc_zero = default_alloc-zero;
    alloc_aligned = λ size k s s' b e.
        let (_, le, got) = default_alloc-some size (2 ^ k) s s' b e in
        aligned_16 (libc.address s' b) k (laws.malloc_aligned size s s' b got) le;
    realloc_aligned = λ p old new k s s' b e.
        let (_, le, got) = default_realloc-some p old new (2 ^ k) s s' b e in
        aligned_16 (libc.address s' b) k (laws.realloc_aligned p new s s' b got) le;
    alloc_size = λ size align s s' b e.
        laws.malloc_size size s s' b (default_alloc-some size align s s' b e).2;
    realloc_size = λ p old new align s s' b e.
        laws.realloc_size p new s s' b (default_realloc-some p old new align s s' b e).2;
    realloc_keeps = λ p old new align s s' b m size h k e.
        laws.realloc_keeps p old new s s' b m size h k
          (default_realloc-some p old new align s s' b e).2;
  }

  -- The default allocator gives a block only for a positive size and an alignment that `malloc`
  -- meets, and then it is what `malloc` gives; `realloc` likewise.
  pub default_guards :
      (p : Option Bytes) (old size align : ℕ) (s s' : S) (b : Bytes)
      → (default_alloc libc size align s ≡ (some b, s')
          → (size ≢ 0) × (align ≤ max_align) × (libc.malloc size s ≡ (some b, s')))
        × (default_realloc libc p old size align s ≡ (some b, s')
            → (size ≢ 0) × (align ≤ max_align) × (libc.realloc p size s ≡ (some b, s')))
  default_guards p old size align s s' b =
      (default_alloc-some size align s s' b, default_realloc-some p old size align s s' b)
