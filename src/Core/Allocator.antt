-- ===== src/Core/Allocator.antt =====
-- d4np/core/d4np_allocator.h and d4np_allocator.c.
-- The state that the callbacks work on is a type `S`: the heap of the C library and whatever `ctx`
-- points to. `malloc`, `realloc` and `free` are the C library's, so they are a parameter.
use egl_utils_c.Base.{
  ℕ, ◌%◌, ◌^◌, ◌≤◌, ◌≡◌, Bool, not, ◌||◌, Option, none, some, Bytes, length, take, leb, ◌==◌,
  if◌then◌else◌,
}

-- d4np_allocator_t: a callback takes the state and returns the new one. A pointer to a block is
-- the block's bytes, or `none` for NULL.
pub record Allocator (S : Type 0) : Type 0 where
  pub alloc : ℕ → ℕ → S → Option Bytes × S
  pub realloc : Option Bytes → ℕ → ℕ → ℕ → S → Option Bytes × S
  pub free : Option Bytes → ℕ → S → S

-- The bytes that `realloc` must carry over.
abbrev pub Keeps : Option Bytes → ℕ → Bytes → Type 0
Keeps none m c = Unit {0}
Keeps (some b) m c = take m c ≡ take m b

-- `n` is the size of the block, as the caller of `realloc` and `free` passes it back.
abbrev pub SizeOf : Option Bytes → ℕ → Type 0
SizeOf none n = Unit {0}
SizeOf (some b) n = length b ≡ n

-- What d4np_allocator.h asks of an implementation: a block of the size that was requested, at a
-- multiple of the alignment, which is a power of two; NULL for a request of no bytes; and on
-- `realloc` the old contents up to the smaller size. `address s b` is where the block `b` that a call
-- has just returned stands, in the state `s` after the call.
pub record IsAllocator {S : Type 0} (address : S → Bytes → ℕ) (a : Allocator S) : Type 0 where
  pub alloc_size :
      (size align : ℕ) (s s' : S) (b : Bytes)
      → a.alloc size align s ≡ (some b, s')
      → length b ≡ size
  pub alloc_zero : (align : ℕ) (s : S) → (a.alloc 0 align s).0 ≡ none
  pub alloc_aligned :
      (size k : ℕ) (s s' : S) (b : Bytes)
      → a.alloc size (2 ^ k) s ≡ (some b, s')
      → address s' b % 2 ^ k ≡ 0
  pub realloc_aligned :
      (p : Option Bytes) (old new k : ℕ) (s s' : S) (b : Bytes)
      → a.realloc p old new (2 ^ k) s ≡ (some b, s')
      → address s' b % 2 ^ k ≡ 0
  pub realloc_size :
      (p : Option Bytes) (old new align : ℕ) (s s' : S) (b : Bytes)
      → a.realloc p old new align s ≡ (some b, s')
      → length b ≡ new
  pub realloc_keeps :
      (p : Option Bytes) (old new align : ℕ) (s s' : S) (b : Bytes) (m : ℕ)
      → SizeOf p old
      → m ≤ old
      → m ≤ new
      → a.realloc p old new align s ≡ (some b, s')
      → Keeps p m b

-- The C library's heap functions, and where the machine places the blocks.
pub record Libc (S : Type 0) : Type 0 where
  pub address : S → Bytes → ℕ
  pub malloc : ℕ → S → Option Bytes × S
  pub realloc : Option Bytes → ℕ → S → Option Bytes × S
  pub free : Option Bytes → S → S

-- alignof(d4np_max_align_t): that of long double on x86_64.
abbrev pub max_align : ℕ
max_align = 16

unfoldable pub align_ok : ℕ → Bool
align_ok align = leb align max_align

module _ {S : Type 0} (libc : Libc S) where
  unfoldable pub default_alloc : ℕ → ℕ → S → Option Bytes × S
  unfolding align_ok
  default_alloc size align s =
      if size == 0 || not (align_ok align) then (none, s) else libc.malloc size s

  unfoldable pub default_realloc : Option Bytes → ℕ → ℕ → ℕ → S → Option Bytes × S
  unfolding align_ok
  default_realloc ptr old_size new_size align s =
      if not (align_ok align)
      then (none, s)
      else if new_size == 0
      then (none, libc.free ptr s)
      else libc.realloc ptr new_size s

  unfoldable pub default_free : Option Bytes → ℕ → S → S
  default_free ptr size s = libc.free ptr s

  -- d4np_allocator_default
  abbrev pub allocator_default : Allocator S
  allocator_default = record {
    alloc = default_alloc;
    realloc = default_realloc;
    free = default_free;
  }

  -- The allocator that a call uses: NULL selects the default one.
  abbrev pub or_default : Option (Allocator S) → Allocator S
  or_default none = allocator_default
  or_default (some a) = a

  unfoldable pub alloc : Option (Allocator S) → ℕ → ℕ → S → Option Bytes × S
  alloc a size align s = (or_default a).alloc size align s

  unfoldable pub realloc : Option (Allocator S) → Option Bytes → ℕ → ℕ → ℕ → S → Option Bytes × S
  realloc a ptr old_size new_size align s = (or_default a).realloc ptr old_size new_size align s

  unfoldable pub free : Option (Allocator S) → Option Bytes → ℕ → S → S
  free a ptr size s = (or_default a).free ptr size s
