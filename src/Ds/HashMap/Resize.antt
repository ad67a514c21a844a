-- ===== src/Ds/HashMap/Resize.antt =====
-- `resize` of hashmap.c.
use egl_utils_c.Base.{
  ℕ, ◌/◌, Bool, true, Option, none, some, Bytes, ltb, ◌==◌, if◌then◌else◌, size_max, mul_size,
  replicate, write_at, ◌>>=◌,
}
use egl_utils_c.Core.Status.{Status, ok, out_of_memory, overflow}
use egl_utils_c.Core.Allocator.{Libc, alloc, free, max_align}
use egl_utils_c.Ds.HashMap.State.{HashMap, slot_empty}
use egl_utils_c.Ds.HashMap.Probe.{reinsert}

-- new_capacity > SIZE_MAX / stride
unfoldable pub exceeds : ℕ → ℕ → Option Bool
exceeds n stride = if stride == 0 then none else some (ltb (size_max / stride) n)

module _ {S : Type 0} (libc : Libc S) where
  -- The end of `resize` where the three blocks are there.
  unfoldable pub move_in :
      HashMap S → ℕ → Bytes → Bytes → Bytes → S → Option (Status × HashMap S × S)
  unfolding write_at reinsert
  move_in m n nc nk nv s = do
    control ← write_at (some nc) 0 (replicate n slot_empty)
    m' ← reinsert m m.capacity 0 (record m {
      control = some control;
      keys = some nk;
      values = some nv;
      capacity = n;
      tombstones = 0;
    })
    some (
      ok,
      m',
      free libc m.allocator m.values (mul_size m.capacity m.value_stride) (
          free libc m.allocator m.keys (mul_size m.capacity m.key_stride)
            (free libc m.allocator m.control m.capacity s)),
    )

  -- The test of the three blocks; where one is NULL all are freed.
  unfoldable pub with_blocks :
      HashMap S
      → ℕ
      → Option Bytes
      → Option Bytes
      → Option Bytes
      → S
      → Option (Status × HashMap S × S)
  unfolding move_in
  with_blocks m n (some nc) (some nk) (some nv) s = move_in m n nc nk nv s
  with_blocks m n nc nk nv s = some (
    out_of_memory,
    m,
    free libc m.allocator nv (mul_size n m.value_stride)
        (free libc m.allocator nk (mul_size n m.key_stride) (free libc m.allocator nc n s)),
  )

  unfoldable pub resize : HashMap S → ℕ → S → Option (Status × HashMap S × S)
  unfolding exceeds with_blocks
  resize m n s = do
    key_big ← exceeds n m.key_stride
    value_big ← if key_big then some true else exceeds n m.value_stride
    if value_big
        then some (overflow, m, s)
        else (let (nc, s1) = alloc libc m.allocator n max_align s in
            let (nk, s2) = alloc libc m.allocator (mul_size n m.key_stride) max_align s1 in
            let (nv, s3) = alloc libc m.allocator (mul_size n m.value_stride) max_align s2 in
            with_blocks m n nc nk nv s3)
