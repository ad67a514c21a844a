-- ===== src/Mem/Arena.antt =====
-- d4np/mem/arena.h and arena.c. A pointer into the arena is its offset from `base`.
pub mod Align
pub mod Alloc
pub mod Ranges
pub mod Lifetime
mod Tests
use egl_utils_c.Base.{
  ℕ, ◌-◌, Bool, true, false, ◌||◌, Option, none, some, Bytes, ltb, ◌==◌, if◌then◌else◌, size_max,
  add_size, sub_size, bit_and,
}
use egl_utils_c.Core.Status.{Status, ok, invalid_argument, out_of_memory}
use egl_utils_c.Core.Allocator.{Allocator, Libc, or_default, free, max_align}
use egl_utils_c.Core.Allocator.{alloc as allocate}

-- d4np_arena_t
pub record Arena (S : Type 0) : Type 0 where
  pub allocator : Option (Allocator S)
  pub base : Option Bytes
  pub capacity : ℕ
  pub offset : ℕ

-- The result, and whether the sum overflowed. `~x` is `SIZE_MAX - x`.
unfoldable pub align_up : ℕ → ℕ → ℕ × Bool
align_up value align =
    let a = if align == 0 then 1 else align in
    let sum = add_size value (sub_size a 1) in
    if ltb sum value then (0, true) else (bit_and sum (size_max - sub_size a 1), false)

module _ {S : Type 0} where
  unfoldable pub bump : Arena S → ℕ → ℕ × Bool → Option ℕ × Option (Arena S)
  bump arena size (aligned, overflow) =
      if overflow || ltb arena.capacity aligned
      then (none, some arena)
      else if ltb (sub_size arena.capacity aligned) size
      then (none, some arena)
      else (some aligned, some (record arena { offset = add_size aligned size }))

  unfoldable pub alloc : Option (Arena S) → ℕ → ℕ → Option ℕ × Option (Arena S)
  unfolding bump
  alloc none size align = (none, none)
  alloc (some arena) size align =
      if size == 0 then (none, some arena) else bump arena size (align_up arena.offset align)

  unfoldable pub reset : Option (Arena S) → Option (Arena S)
  reset none = none
  reset (some arena) = some (record arena { offset = 0 })

  unfoldable pub used : Option (Arena S) → ℕ
  used none = 0
  used (some arena) = arena.offset

  unfoldable pub remaining : Option (Arena S) → ℕ
  remaining none = 0
  remaining (some arena) = sub_size arena.capacity arena.offset

module _ {S : Type 0} (libc : Libc S) where
  -- `arena` is the object before the call; it is written only on success.
  unfoldable pub set_up :
      Arena S → Option (Allocator S) → ℕ → Option Bytes × S → Status × Option (Arena S) × S
  set_up arena allocator capacity (none, s) = (out_of_memory, some arena, s)
  set_up arena allocator capacity (some block, s) = (
    ok,
    some (record {
      allocator = some (or_default libc allocator);
      base = some block;
      capacity = capacity;
      offset = 0;
    }),
    s,
  )

  unfoldable pub init :
      Option (Arena S) → Option (Allocator S) → ℕ → S → Status × Option (Arena S) × S
  unfolding set_up
  init none allocator capacity s = (invalid_argument, none, s)
  init (some arena) allocator capacity s =
      if capacity == 0
      then (invalid_argument, some arena, s)
      else set_up arena allocator capacity
          (allocate libc (some (or_default libc allocator)) capacity max_align s)

  unfoldable pub destroy_base : Arena S → Option Bytes → S → Arena S × S
  destroy_base arena none s = (arena, s)
  destroy_base arena (some b) s = (
    record { allocator = none; base = none; capacity = 0; offset = 0 },
    free libc arena.allocator (some b) arena.capacity s,
  )

  unfoldable pub destroy : Option (Arena S) → S → Option (Arena S) × S
  unfolding destroy_base
  destroy none s = (none, s)
  destroy (some arena) s = let (a, s') = destroy_base arena arena.base s in (some a, s')
