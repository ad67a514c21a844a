-- ===== src/Mem/Pool.antt =====
-- d4np/mem/pool.h and pool.c. A pointer into the pool is its offset from `base`. The free list is
-- threaded through the slots: how a pointer is laid out in its 8 bytes is the compiler's, so it is a
-- parameter. A result `none` is an access outside the block or a failed assertion.
pub mod Links
pub mod Slots
pub mod Threaded
pub mod Valid
pub mod Lifetime
pub mod Steps
mod Tests
use egl_utils_c.Base.{
  ℕ, zero, suc, ◌-◌, ◌/◌, ◌%◌, ◌≡◌, Bool, ◌||◌, ◌&&◌, not, Option, none, some, Bytes, length, ltb,
  ◌==◌, if◌then◌else◌, size_max, add_size, sub_size, mul_size, bit_and, read_at, write_at, ◌>>=◌,
}
use egl_utils_c.Core.Status.{Status, ok, invalid_argument, out_of_memory, overflow}
use egl_utils_c.Core.Allocator.{Allocator, Libc, or_default, free, max_align}
use egl_utils_c.Core.Allocator.{alloc as allocate}

-- sizeof(void *)
abbrev pub pointer_size : ℕ
pointer_size = 8

-- The bytes of a pointer object: NULL, or a pointer to an offset of the block.
pub record Layout : Type 0 where
  pub encode : Option ℕ → Bytes
  pub decode : Bytes → Option ℕ

pub record IsLayout (layout : Layout) : Type 0 where
  pub encode_size : (p : Option ℕ) → length (layout.encode p) ≡ pointer_size
  pub decode-encode : (p : Option ℕ) → layout.decode (layout.encode p) ≡ p

-- d4np_pool_t
pub record Pool (S : Type 0) : Type 0 where
  pub allocator : Option (Allocator S)
  pub base : Option Bytes
  pub free_list : Option ℕ
  pub stride : ℕ
  pub block_count : ℕ
  pub total_size : ℕ
  pub free_count : ℕ

-- `~x` is `SIZE_MAX - x`.
unfoldable pub round_up : ℕ → ℕ → ℕ
round_up value multiple =
    bit_and (add_size value (sub_size multiple 1)) (size_max - sub_size multiple 1)

module _ (layout : Layout) where
  -- *(void **)node
  unfoldable pub load_link : Option Bytes → ℕ → Option (Option ℕ)
  unfolding read_at
  load_link base node = do b ← read_at base node pointer_size; some (layout.decode b)

  -- *(void **)node = next
  unfoldable pub store_link : Option Bytes → ℕ → Option ℕ → Option Bytes
  unfolding write_at
  store_link base node next = write_at base node (layout.encode next)

  -- The loop of d4np_pool_init over the slots below `i`: the head and the block.
  unfoldable pub thread : ℕ → ℕ → Option ℕ → Bytes → Option (Option ℕ × Bytes)
  unfolding store_link
  thread stride zero head base = some (head, base)
  thread stride (suc i) head base = do
    base' ← store_link (some base) (mul_size i stride) head
    thread stride i (some (mul_size i stride)) base'

  module _ {S : Type 0} (libc : Libc S) where
    -- `pool` is the object before the call; it is written only on success.
    unfoldable pub set_up :
        Pool S → Allocator S → ℕ → ℕ → Option Bytes × S → Option (Status × Option (Pool S) × S)
    unfolding thread
    set_up pool allocator stride block_count (none, s) = some (out_of_memory, some pool, s)
    set_up pool allocator stride block_count (some block, s) = do
      (head, base) ← thread stride block_count none block
      some (
        ok,
        some (record {
          allocator = some allocator;
          base = some base;
          free_list = head;
          stride = stride;
          block_count = block_count;
          total_size = mul_size stride block_count;
          free_count = block_count;
        }),
        s,
      )

    -- d4np_pool_init from the test of the stride on.
    unfoldable pub init_slots :
        Pool S → Allocator S → ℕ → ℕ → ℕ → S → Option (Status × Option (Pool S) × S)
    unfolding set_up
    init_slots pool allocator slot stride block_count s =
        if ltb stride slot
        then some (overflow, some pool, s)
        else if not (stride == 0) && ltb (size_max / stride) block_count
        then some (overflow, some pool, s)
        else set_up pool allocator stride block_count
            (allocate libc (some allocator) (mul_size stride block_count) max_align s)

    unfoldable pub init :
        Option (Pool S) → Option (Allocator S) → ℕ → ℕ → S → Option (Status × Option (Pool S) × S)
    unfolding init_slots round_up
    init none allocator block_size block_count s = some (invalid_argument, none, s)
    init (some pool) allocator block_size block_count s =
        if block_size == 0 || block_count == 0
        then some (invalid_argument, some pool, s)
        else let slot = if ltb block_size pointer_size then pointer_size else block_size in
          init_slots pool (or_default libc allocator) slot (round_up slot max_align) block_count s

  module _ {S : Type 0} where
    unfoldable pub take_node : Pool S → Option ℕ → Option (Option ℕ × Option (Pool S))
    unfolding load_link
    take_node pool none = some (none, some pool)
    take_node pool (some node) = do
      next ← load_link pool.base node
      some (
        some node,
        some (record pool { free_list = next; free_count = sub_size pool.free_count 1 }),
      )

    unfoldable pub alloc : Option (Pool S) → Option (Option ℕ × Option (Pool S))
    unfolding take_node
    alloc none = some (none, none)
    alloc (some pool) = take_node pool pool.free_list

    -- d4np_pool_free. An offset is never below `base`, so the first assertion is not there.
    unfoldable pub release : Option (Pool S) → Option ℕ → Option (Option (Pool S))
    unfolding store_link
    release none ptr = some none
    release (some pool) none = some (some pool)
    release (some pool) (some ptr) =
        if ltb ptr pool.total_size && (not (pool.stride == 0) && ptr % pool.stride == 0)
        then (do
          base ← store_link pool.base ptr pool.free_list
          some (
              some (record pool {
                base = some base;
                free_list = some ptr;
                free_count = add_size pool.free_count 1;
              })))
        else none

module _ {S : Type 0} where
  unfoldable pub available : Option (Pool S) → ℕ
  available none = 0
  available (some pool) = pool.free_count

module _ {S : Type 0} (libc : Libc S) where
  unfoldable pub destroy_base : Pool S → Option Bytes → S → Pool S × S
  destroy_base pool none s = (pool, s)
  destroy_base pool (some base) s = (
    record {
      allocator = none;
      base = none;
      free_list = none;
      stride = 0;
      block_count = 0;
      total_size = 0;
      free_count = 0;
    },
    free libc pool.allocator (some base) pool.total_size s,
  )

  unfoldable pub destroy : Option (Pool S) → S → Option (Pool S) × S
  unfolding destroy_base
  destroy none s = (none, s)
  destroy (some pool) s = let (p, s') = destroy_base pool pool.base s in (some p, s')
