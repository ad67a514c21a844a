-- ===== src/Ds/Vector.antt =====
-- d4np/ds/vector.h and vector.c.
-- A pointer to the vector is `none` for NULL. What a function writes through it is returned; a
-- result `none` is undefined behaviour (a copy outside a block).
pub mod Contents
pub mod Reserve
pub mod Push
pub mod Access
pub mod Lifetime
mod Tests
use egl_utils_c.Base.{
  ℕ, ◌+◌, ◌-◌, ◌*◌, ◌/◌, Bool, true, ◌||◌, Option, none, some, Bytes, leb, ltb, ◌==◌, if◌then◌else◌,
  size_max, add_size, mul_size, write_at, read_at, copy_out, ◌>>=◌,
}
use egl_utils_c.Core.Status.{Status, ok, invalid_argument, out_of_memory, overflow, not_found}
use egl_utils_c.Core.Allocator.{
  Allocator, Libc, allocator_default, or_default, realloc, free, max_align,
}

abbrev pub min_capacity : ℕ
min_capacity = 8

-- d4np_vector_t
pub record Vector (S : Type 0) : Type 0 where
  pub allocator : Option (Allocator S)
  pub block : Option Bytes
  pub elem_size : ℕ
  pub len : ℕ
  pub capacity : ℕ

module _ {S : Type 0} where
  -- The copy and the increment of d4np_vector_push.
  unfoldable pub append : Vector S → Bytes → Option (Vector S)
  unfolding write_at read_at
  append v elem = do
    src ← read_at (some elem) 0 v.elem_size
    block ← write_at v.block (mul_size v.len v.elem_size) src
    some (record v { block = some block; len = add_size v.len 1 })

  unfoldable pub after_room :
      Bytes → Status × Vector S × S → Option (Status × Option (Vector S) × S)
  unfolding append
  after_room elem (ok, v, s) = do v' ← append v elem; some (ok, some v', s)
  after_room elem (st, v, s) = some (st, some v, s)

module _ {S : Type 0} (libc : Libc S) where
  unfoldable pub grow_to : Vector S → ℕ → Option Bytes × S → Status × Vector S × S
  grow_to v n (none, s) = (out_of_memory, v, s)
  grow_to v n (some p, s) = (ok, record v { block = some p; capacity = n }, s)

  -- d4np_vector_reserve behind its NULL test
  unfoldable pub reserve_live : Vector S → ℕ → S → Status × Vector S × S
  unfolding grow_to
  reserve_live v n s =
      if leb n v.capacity
      then (ok, v, s)
      else if ltb (size_max / v.elem_size) n
      then (overflow, v, s)
      else grow_to v n (
          realloc libc v.allocator v.block (mul_size v.capacity v.elem_size)
            (mul_size n v.elem_size) max_align s)

  unfoldable pub reserve : Option (Vector S) → ℕ → S → Status × Option (Vector S) × S
  unfolding reserve_live
  reserve none n s = (invalid_argument, none, s)
  reserve (some v) n s = let (st, v', s') = reserve_live v n s in (st, some v', s')

  -- `storage` is the vector before the call, whose fields are all assigned.
  unfoldable pub init :
      Option (Vector S) → Option (Allocator S) → ℕ → ℕ → S → Status × Option (Vector S) × S
  unfolding reserve_live
  init none allocator elem_size initial s = (invalid_argument, none, s)
  init (some storage) allocator elem_size initial s =
      if elem_size == 0
      then (invalid_argument, some storage, s)
      else let v : Vector S = record {
        allocator = some (or_default libc allocator);
        block = none;
        elem_size = elem_size;
        len = 0;
        capacity = 0;
      } in
        if ltb 0 initial
        then (let (st, v', s') = reserve_live v initial s in (st, some v', s'))
        else (ok, some v, s)

  unfoldable pub destroy_block : Vector S → Option Bytes → S → Vector S × S
  destroy_block v none s = (v, s)
  destroy_block v (some b) s = (
    record v { block = none; len = 0; capacity = 0 },
    free libc v.allocator (some b) (mul_size v.capacity v.elem_size) s,
  )

  unfoldable pub destroy : Option (Vector S) → S → Option (Vector S) × S
  unfolding destroy_block
  destroy none s = (none, s)
  destroy (some v) s = let (v', s') = destroy_block v v.block s in (some v', s')

  -- The growth step of d4np_vector_push.
  unfoldable pub make_room : Vector S → S → Status × Vector S × S
  unfolding reserve_live
  make_room v s =
      if v.len == v.capacity
      then reserve_live v (if v.capacity == 0 then min_capacity else mul_size v.capacity 2) s
      else (ok, v, s)

  unfoldable pub push :
      Option (Vector S) → Option Bytes → S → Option (Status × Option (Vector S) × S)
  unfolding make_room after_room
  push none elem s = some (invalid_argument, none, s)
  push (some v) none s = some (invalid_argument, some v, s)
  push (some v) (some elem) s = after_room elem (make_room v s)

module _ {S : Type 0} where
  -- The last component is the buffer at `out` after the call.
  unfoldable pub pop :
      Option (Vector S) → Option Bytes → Option (Status × Option (Vector S) × Option Bytes)
  unfolding copy_out
  pop none out = some (invalid_argument, none, out)
  pop (some v) out =
      if v.len == 0
      then some (not_found, some v, out)
      else let v' : Vector S = record v { len = v.len - 1 } in
        do
          out' ← copy_out out v.block (mul_size v'.len v.elem_size) v.elem_size
          some (ok, some v', out')

  -- The pointer is the offset into the block.
  unfoldable pub at : Option (Vector S) → ℕ → Option ℕ
  at none index = none
  at (some v) index = if leb v.len index then none else some (mul_size index v.elem_size)

  unfoldable pub len : Option (Vector S) → ℕ
  len none = 0
  len (some v) = v.len

  unfoldable pub capacity : Option (Vector S) → ℕ
  capacity none = 0
  capacity (some v) = v.capacity

  unfoldable pub is_empty : Option (Vector S) → Bool
  is_empty none = true
  is_empty (some v) = v.len == 0

  unfoldable pub clear : Option (Vector S) → Option (Vector S)
  clear none = none
  clear (some v) = some (record v { len = 0 })
