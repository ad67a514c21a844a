-- ===== src/Mem/Arena/Tests.antt =====
-- Runs of arena.c, and its theorems at concrete arenas.
use egl_utils_c.Base.{ℕ, ◌+◌, ◌%◌, ◌≡◌, refl, arith, none, some, List, [], ◌∷◌}
use egl_utils_c.Mem.Arena.{Arena, align_up, alloc}
use egl_utils_c.Mem.Arena.Align.{AlignedUp, align_up-AlignedUp}
use egl_utils_c.Mem.Arena.Alloc.{IsValid, Allocated, alloc-Allocated}
use egl_utils_c.Mem.Arena.Ranges.{Request, InOrder, ranges, ranges-InOrder, alloc_misaligned}

abbrev arena : Arena ℕ
arena = record { allocator = none; base = some (0 ∷ 0 ∷ []); capacity = 100; offset = 5 }

arena-IsValid : IsValid arena
arena-IsValid = record { within = omega arith; capacity_lt = omega arith }

alloc_run : alloc (some arena) 10 8 ≡ (some 8, some (record arena { offset = 18 }))
unfolding alloc align_up
alloc_run = refl

align_up-AlignedUp_example : AlignedUp 3 13 (align_up 13 8)
align_up-AlignedUp_example = align_up-AlignedUp 3 13 (omega arith) (omega arith) 8 refl

alloc-Allocated_example : Allocated 3 10 arena (alloc (some arena) 10 8)
alloc-Allocated_example = alloc-Allocated 3 10 8 arena arena-IsValid (omega arith) refl

abbrev requests : List Request
requests =
    record { size = 10; align = 8; bits = 3; bits_le = omega arith; pow = refl }
    ∷ record { size = 7; align = 0; bits = 0; bits_le = omega arith; pow = refl }
    ∷ []

ranges-InOrder_example : InOrder 5 100 (ranges (some arena) requests)
ranges-InOrder_example = ranges-InOrder requests arena arena-IsValid

alloc_misaligned_example : (48 + 32) % 32 ≡ 16
unfolding alloc align_up
alloc_misaligned_example =
    alloc_misaligned arena 48 10 32 (some (record arena { offset = 42 })) arena-IsValid refl refl
