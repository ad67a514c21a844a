-- ===== src/Ds/HashMap/Methods.antt =====
-- The functions of d4np/ds/hashmap.h.
use egl_utils_c.Base.{
  ℕ, Bool, true, false, ◌||◌, Option, none, some, Bytes, leb, ltb, ◌==◌, if◌then◌else◌, add_size,
  sub_size, mul_size, replicate, write_at, read_at, ◌>>=◌,
}
use egl_utils_c.Core.Status.{Status, ok, invalid_argument}
use egl_utils_c.Core.Allocator.{Allocator, Libc, or_default, free, max_align}
use egl_utils_c.Ds.HashMap.State.{
  HashMap, min_capacity, slot_empty, slot_deleted, default_hash, default_key_eq, round_up,
  next_pow2_at_least, value_slot, control_at, set_control, set_value, occupy,
}
use egl_utils_c.Ds.HashMap.Probe.{locate}
use egl_utils_c.Ds.HashMap.Resize.{resize}

abbrev pub or_hash : Option (Bytes → ℕ) → Bytes → ℕ
or_hash none = default_hash
or_hash (some hash) = hash

abbrev pub or_key_eq : Option (Bytes → Bytes → Bool) → Bytes → Bytes → Bool
or_key_eq none = default_key_eq
or_key_eq (some key_eq) = key_eq

abbrev pub is_some : Option ℕ → Bool
is_some none = false
is_some (some p) = true

module _ {S : Type 0} (libc : Libc S) where
  -- `storage` is the map before the call, whose fields are all assigned.
  unfoldable pub init :
      Option (HashMap S)
      → Option (Allocator S)
      → ℕ
      → ℕ
      → ℕ
      → Option (Bytes → ℕ)
      → Option (Bytes → Bytes → Bool)
      → S
      → Option (Status × Option (HashMap S) × S)
  unfolding resize round_up next_pow2_at_least
  init none allocator key_size value_size initial hash key_eq s = some (invalid_argument, none, s)
  init (some storage) allocator key_size value_size initial hash key_eq s =
      if key_size == 0 || value_size == 0
      then some (invalid_argument, some storage, s)
      else let m : HashMap S = record {
        allocator = some (or_default libc allocator);
        control = none;
        keys = none;
        values = none;
        key_size = key_size;
        value_size = value_size;
        key_stride = round_up key_size max_align;
        value_stride = round_up value_size max_align;
        capacity = 0;
        len = 0;
        tombstones = 0;
        hash = or_hash hash;
        key_eq = or_key_eq key_eq;
      } in
        if ltb 0 initial
        then (do
          capacity ← next_pow2_at_least initial
          (st, m', s') ← resize libc m capacity s
          some (st, some m', s'))
        else some (ok, some m, s)

  unfoldable pub destroy_blocks : HashMap S → Option Bytes → S → HashMap S × S
  destroy_blocks m none s = (m, s)
  destroy_blocks m (some control) s = (
    record m { control = none; keys = none; values = none; capacity = 0; len = 0; tombstones = 0 },
    free libc m.allocator m.values (mul_size m.capacity m.value_stride) (
        free libc m.allocator m.keys (mul_size m.capacity m.key_stride)
          (free libc m.allocator (some control) m.capacity s)),
  )

  unfoldable pub destroy : Option (HashMap S) → S → Option (HashMap S) × S
  unfolding destroy_blocks
  destroy none s = (none, s)
  destroy (some m) s = let (m', s') = destroy_blocks m m.control s in (some m', s')

  -- The growth step of d4np_hashmap_put.
  unfoldable pub grow : HashMap S → S → Option (Status × HashMap S × S)
  unfolding resize
  grow m s =
      if leb (mul_size m.capacity 3) (mul_size (add_size (add_size m.len m.tombstones) 1) 4)
      then resize libc m (if m.capacity == 0 then min_capacity else mul_size m.capacity 2) s
      else some (ok, m, s)

module _ {S : Type 0} where
  -- The stores of d4np_hashmap_put in the slot that `locate` gives.
  unfoldable pub store : HashMap S → Bytes → Bytes → ℕ × Bool → Option (HashMap S)
  unfolding set_value control_at occupy
  store m key value (i, true) = set_value m i value
  store m key value (i, false) = do
    st ← control_at m i
    let m1 : HashMap S =
          if st == slot_deleted then record m { tombstones = sub_size m.tombstones 1 } else m in
        do m2 ← occupy m1 i key value; some (record m2 { len = add_size m2.len 1 })

  unfoldable pub insert :
      Bytes → Bytes → Status × HashMap S × S → Option (Status × Option (HashMap S) × S)
  unfolding locate store
  insert key value (ok, m, s) = do r ← locate m key; m' ← store m key value r; some (ok, some m', s)
  insert key value (st, m, s) = some (st, some m, s)

module _ {S : Type 0} (libc : Libc S) where
  unfoldable pub put :
      Option (HashMap S)
      → Option Bytes
      → Option Bytes
      → S
      → Option (Status × Option (HashMap S) × S)
  unfolding grow insert read_at
  put none key value s = some (invalid_argument, none, s)
  put (some m) none value s = some (invalid_argument, some m, s)
  put (some m) (some key) none s = some (invalid_argument, some m, s)
  put (some m) (some key) (some value) s = do
    r ← grow libc m s
    k ← read_at (some key) 0 m.key_size
    v ← read_at (some value) 0 m.value_size
    insert k v r

module _ {S : Type 0} where
  -- The pointer is the offset into `values`, or `none` for NULL.
  unfoldable pub get : Option (HashMap S) → Option Bytes → Option (Option ℕ)
  unfolding locate value_slot read_at
  get none key = some none
  get (some m) none = some none
  get (some m) (some key) = if m.capacity == 0 then some none else do
    k ← read_at (some key) 0 m.key_size
    (i, found) ← locate m k
    some (if found then some (value_slot m i) else none)

  unfoldable pub contains : Option (HashMap S) → Option Bytes → Option Bool
  unfolding get
  contains m key = do p ← get m key; some (is_some p)

  unfoldable pub remove : Option (HashMap S) → Option Bytes → Option (Bool × Option (HashMap S))
  unfolding locate set_control read_at
  remove none key = some (false, none)
  remove (some m) none = some (false, some m)
  remove (some m) (some key) = if m.capacity == 0 then some (false, some m) else do
    k ← read_at (some key) 0 m.key_size
    (i, found) ← locate m k
    if found
        then (do
          m' ← set_control m i slot_deleted
          some (
            true,
            some (record m' { len = sub_size m'.len 1; tombstones = add_size m'.tombstones 1 }),
          ))
        else some (false, some m)

  unfoldable pub len : Option (HashMap S) → ℕ
  len none = 0
  len (some m) = m.len

  unfoldable pub clear_control : HashMap S → Option Bytes → Option (HashMap S)
  unfolding write_at
  clear_control m none = some m
  clear_control m (some control) = do
    control' ← write_at (some control) 0 (replicate m.capacity slot_empty)
    some (record m { control = some control'; len = 0; tombstones = 0 })

  unfoldable pub clear : Option (HashMap S) → Option (Option (HashMap S))
  unfolding clear_control
  clear none = some none
  clear (some m) = do m' ← clear_control m m.control; some (some m')
