-- ===== src/Ds/RingBuffer.antt =====
-- d4np/ds/ring_buffer.h and ring_buffer.c, with the calls of the producer and the consumer as
-- whole steps, one at a time. `head` and `tail` count modulo 2^64.
pub mod Queue
pub mod Contents
pub mod Push
pub mod Pop
pub mod Refine
pub mod Lifetime
mod Tests
use egl_utils_c.Base.{
  ℕ, ◌-◌, ◌/◌, Bool, true, false, ◌||◌, Option, none, some, Bytes, ltb, ◌==◌, if◌then◌else◌,
  size_max, add_size, sub_size, mul_size, bit_and, write_at, read_at, copy_out, ◌>>=◌, double_until,
}
use egl_utils_c.Core.Status.{Status, ok, invalid_argument, out_of_memory, overflow}
use egl_utils_c.Core.Allocator.{Allocator, Libc, or_default, alloc, free, max_align}

-- d4np_ring_buffer_t
pub record RingBuffer (S : Type 0) : Type 0 where
  pub allocator : Option (Allocator S)
  pub buffer : Option Bytes
  pub elem_size : ℕ
  pub capacity : ℕ
  pub mask : ℕ
  pub head : ℕ
  pub tail : ℕ

-- From 1 the loop looks at 64 values at most.
unfoldable pub next_pow2_at_least : ℕ → Option ℕ
unfolding double_until
next_pow2_at_least n = double_until 64 1 n

module _ {S : Type 0} where
  unfoldable pub push : Option (RingBuffer S) → Option Bytes → Option (Bool × Option (RingBuffer S))
  unfolding write_at read_at
  push none elem = some (false, none)
  push (some rb) none = some (false, some rb)
  push (some rb) (some elem) =
      if sub_size rb.tail rb.head == rb.capacity then some (false, some rb) else do
        src ← read_at (some elem) 0 rb.elem_size
        buffer ← write_at rb.buffer (mul_size (bit_and rb.tail rb.mask) rb.elem_size) src
        some (true, some (record rb { buffer = some buffer; tail = add_size rb.tail 1 }))

  -- The last component is the buffer at `out` after the call.
  unfoldable pub pop :
      Option (RingBuffer S) → Option Bytes → Option (Bool × Option (RingBuffer S) × Option Bytes)
  unfolding copy_out
  pop none out = some (false, none, out)
  pop (some rb) out = if rb.head == rb.tail then some (false, some rb, out) else do
    out' ← copy_out out rb.buffer (mul_size (bit_and rb.head rb.mask) rb.elem_size) rb.elem_size
    some (true, some (record rb { head = add_size rb.head 1 }), out')

  unfoldable pub count : Option (RingBuffer S) → ℕ
  count none = 0
  count (some rb) = sub_size rb.tail rb.head

  unfoldable pub is_empty : Option (RingBuffer S) → Bool
  unfolding count
  is_empty rb = count rb == 0

  unfoldable pub capacity : Option (RingBuffer S) → ℕ
  capacity none = 0
  capacity (some rb) = rb.capacity

module _ {S : Type 0} (libc : Libc S) where
  -- `rb` is the object before the call; it is written only on success.
  unfoldable pub set_up :
      RingBuffer S
      → Option (Allocator S)
      → ℕ
      → ℕ
      → Option Bytes × S
      → Status × Option (RingBuffer S) × S
  set_up rb allocator elem_size cap (none, s) = (out_of_memory, some rb, s)
  set_up rb allocator elem_size cap (some buffer, s) = (
    ok,
    some (record {
      allocator = some (or_default libc allocator);
      buffer = some buffer;
      elem_size = elem_size;
      capacity = cap;
      mask = sub_size cap 1;
      head = 0;
      tail = 0;
    }),
    s,
  )

  unfoldable pub init :
      Option (RingBuffer S)
      → Option (Allocator S)
      → ℕ
      → ℕ
      → S
      → Option (Status × Option (RingBuffer S) × S)
  unfolding set_up next_pow2_at_least
  init none allocator elem_size capacity s = some (invalid_argument, none, s)
  init (some rb) allocator elem_size capacity s =
      if elem_size == 0 || capacity == 0 then some (invalid_argument, some rb, s) else do
        cap ← next_pow2_at_least capacity
        if ltb (size_max / elem_size) cap
            then some (overflow, some rb, s)
            else some (
                set_up rb allocator elem_size cap (
                  alloc libc (some (or_default libc allocator)) (mul_size cap elem_size) max_align
                    s))

  unfoldable pub destroy_buffer : RingBuffer S → Option Bytes → S → RingBuffer S × S
  destroy_buffer rb none s = (rb, s)
  destroy_buffer rb (some b) s = (
    record rb { buffer = none; elem_size = 0; capacity = 0; mask = 0; head = 0; tail = 0 },
    free libc rb.allocator (some b) (mul_size rb.capacity rb.elem_size) s,
  )

  unfoldable pub destroy : Option (RingBuffer S) → S → Option (RingBuffer S) × S
  unfolding destroy_buffer
  destroy none s = (none, s)
  destroy (some rb) s = let (rb', s') = destroy_buffer rb rb.buffer s in (some rb', s')
