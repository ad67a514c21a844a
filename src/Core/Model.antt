-- ===== src/Core/Model.antt =====
-- A heap of the C library to run tests on: every request is granted with zero bytes, and the state
-- counts the blocks that are live.
use egl_utils_c.Base.{
  ℕ, zero, suc, ◌+◌, ◌-◌, ◌≤◌, ◌≡◌, refl, sym, ap, ◌∙◌, arith, Option, none, some, [], ◌∷◌, Bytes,
  length, take,
}
use egl_utils_c.Core.Allocator.{Libc, IsAllocator, Keeps, SizeOf, allocator_default}
use egl_utils_c.Core.Default.{IsLibc, default-IsAllocator}

-- The first `n` bytes, filled up with zeros.
abbrev pub fit : ℕ → Bytes → Bytes
fit zero b = []
fit (suc n) [] = 0 ∷ fit n []
fit (suc n) (x ∷ b) = x ∷ fit n b

length-fit : (n : ℕ) (b : Bytes) → length (fit n b) ≡ n
length-fit zero b = refl
length-fit (suc n) [] = ap suc (length-fit n [])
length-fit (suc n) (x ∷ b) = ap suc (length-fit n b)

take-fit : (m n : ℕ) (b : Bytes) → m ≤ n → m ≤ length b → take m (fit n b) ≡ take m b
take-fit zero n b h k = refl
take-fit (suc m) zero b h k = absurd (omega arith)
take-fit (suc m) (suc n) [] h k = absurd (omega arith)
take-fit (suc m) (suc n) (x ∷ b) h k = ap (λ l. x ∷ l) (take-fit m n b (omega arith) (omega arith))

abbrev pub model_libc : Libc ℕ
model_libc = record {
  address = λ live b. 4096;
  malloc = λ n live. (some (fit n []), live + 1);
  realloc =
      λ p n live. elim p [ none ↦ (some (fit n []), live + 1) | some b ↦ (some (fit n b), live) ];
  free = λ p live. elim p [ none ↦ live | some b ↦ live - 1 ];
}

realloc-Keeps :
    (p : Option Bytes) (old size live live' : ℕ) (b : Bytes) (m : ℕ)
    → SizeOf p old
    → m ≤ old
    → m ≤ size
    → model_libc.realloc p size live ≡ (some b, live')
    → Keeps p m b
realloc-Keeps none old size live live' b m fits h k e = tt
realloc-Keeps (some c) old size live live' b m fits h k e =
    let grown : fit size c ≡ b = cc in ap (take m) (sym grown) ∙ take-fit m size c k (omega arith)

length-realloc :
    (p : Option Bytes) (size live live' : ℕ) (b : Bytes)
    → model_libc.realloc p size live ≡ (some b, live')
    → length b ≡ size
length-realloc none size live live' b e =
    let got : fit size [] ≡ b = cc in ap length (sym got) ∙ length-fit size []
length-realloc (some c) size live live' b e =
    let got : fit size c ≡ b = cc in ap length (sym got) ∙ length-fit size c

length-malloc :
    (size live live' : ℕ) (b : Bytes)
    → model_libc.malloc size live ≡ (some b, live')
    → length b ≡ size
length-malloc size live live' b e =
    let got : fit size [] ≡ b = cc in ap length (sym got) ∙ length-fit size []

pub model_laws : IsLibc model_libc
model_laws = record {
  malloc_size = length-malloc;
  malloc_aligned = λ size s s' b e. refl;
  realloc_aligned = λ p size s s' b e. refl;
  realloc_size = length-realloc;
  realloc_keeps = realloc-Keeps;
}

pub model_lawful : IsAllocator model_libc.address (allocator_default model_libc)
model_lawful = default-IsAllocator model_libc model_laws
