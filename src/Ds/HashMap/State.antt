-- ===== src/Ds/HashMap/State.antt =====
-- d4np/ds/hashmap.h and the callbacks, the sizes and the slots of hashmap.c. A callback takes the
-- `key_size` bytes of a key. A pointer into `keys` or `values` is an offset.
use Prim.Native.Nat.{bit_xor}
use egl_utils_c.Base.{
  ℕ, ◌-◌, Bool, Option, some, [], ◌∷◌, Bytes, size_max, add_size, sub_size, mul_size, bit_and,
  get_elem?, bytes_of, write_at, read_at, double_until, ◌>>=◌,
}
use egl_utils_c.Core.Allocator.{Allocator}
use egl_utils_c.Str.View.{same_bytes}

abbrev pub min_capacity : ℕ
min_capacity = 8

abbrev pub slot_empty : ℕ
slot_empty = 0

abbrev pub slot_occupied : ℕ
slot_occupied = 1

abbrev pub slot_deleted : ℕ
slot_deleted = 2

-- d4np_hashmap_t
pub record HashMap (S : Type 0) : Type 0 where
  pub allocator : Option (Allocator S)
  pub control : Option Bytes
  pub keys : Option Bytes
  pub values : Option Bytes
  pub key_size : ℕ
  pub value_size : ℕ
  pub key_stride : ℕ
  pub value_stride : ℕ
  pub capacity : ℕ
  pub len : ℕ
  pub tombstones : ℕ
  pub hash : Bytes → ℕ
  pub key_eq : Bytes → Bytes → Bool

hash_from : ℕ → Bytes → ℕ
hash_from h [] = h
hash_from h (c ∷ p) = hash_from (mul_size (bit_xor h c) 1099511628211) p

unfoldable pub default_hash : Bytes → ℕ
unfolding hash_from
default_hash key = hash_from 14695981039346656037 key

unfoldable pub default_key_eq : Bytes → Bytes → Bool
unfolding same_bytes
default_key_eq a b = same_bytes a b

-- `~x` is `SIZE_MAX - x`.
unfoldable pub round_up : ℕ → ℕ → ℕ
round_up value multiple =
    bit_and (add_size value (sub_size multiple 1)) (size_max - sub_size multiple 1)

-- From 8 the loop looks at 61 values at most.
unfoldable pub next_pow2_at_least : ℕ → Option ℕ
unfolding double_until
next_pow2_at_least n = double_until 61 min_capacity n

module _ {S : Type 0} where
  unfoldable pub key_slot : HashMap S → ℕ → ℕ
  key_slot m i = mul_size i m.key_stride

  unfoldable pub value_slot : HashMap S → ℕ → ℕ
  value_slot m i = mul_size i m.value_stride

  -- m->control[i]
  unfoldable pub control_at : HashMap S → ℕ → Option ℕ
  control_at m i = get_elem? (bytes_of m.control) i

  -- The key and the value of a slot, as the callbacks and memcpy read them.
  unfoldable pub key_bytes : HashMap S → ℕ → Option Bytes
  unfolding read_at key_slot
  key_bytes m i = read_at m.keys (key_slot m i) m.key_size

  unfoldable pub value_bytes : HashMap S → ℕ → Option Bytes
  unfolding read_at value_slot
  value_bytes m i = read_at m.values (value_slot m i) m.value_size

  -- m->control[i] = st
  unfoldable pub set_control : HashMap S → ℕ → ℕ → Option (HashMap S)
  unfolding write_at
  set_control m i st = do
    control ← write_at m.control i (st ∷ [])
    some (record m { control = some control })

  unfoldable pub set_key : HashMap S → ℕ → Bytes → Option (HashMap S)
  unfolding write_at key_slot
  set_key m i key = do
    keys ← write_at m.keys (key_slot m i) key
    some (record m { keys = some keys })

  unfoldable pub set_value : HashMap S → ℕ → Bytes → Option (HashMap S)
  unfolding write_at value_slot
  set_value m i value = do
    values ← write_at m.values (value_slot m i) value
    some (record m { values = some values })

  -- The three stores that fill a slot.
  unfoldable pub occupy : HashMap S → ℕ → Bytes → Bytes → Option (HashMap S)
  unfolding set_control set_key set_value
  occupy m i key value = do
    m1 ← set_control m i slot_occupied
    m2 ← set_key m1 i key
    set_value m2 i value
