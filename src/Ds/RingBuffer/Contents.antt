-- ===== src/Ds/RingBuffer/Contents.antt =====
-- The representation invariant of `d4np_ring_buffer_t`, and the queue that it stands for.
use egl_utils_c.Base.{
  bytes_of, ℕ, ◌+◌, ◌-◌, ◌*◌, ◌%◌, ◌^◌, ◌≤◌, ◌<◌, ◌≡◌, some, List, Bytes, length, tabulate, slot,
  size_mod, sub_size, length-tabulate,
}
use egl_utils_c.Ds.RingBuffer.{RingBuffer}

-- The number of elements held.
abbrev pub held : {S : Type 0} → RingBuffer S → ℕ
held rb = sub_size rb.tail rb.head

pub record IsValid {S : Type 0} (rb : RingBuffer S) : Type 0 where
  pub elem_pos : 0 < rb.elem_size
  pub bits : ℕ
  pub bits_le : bits ≤ 63
  pub pow : rb.capacity ≡ 2 ^ bits
  pub masked : rb.mask ≡ 2 ^ bits - 1
  pub head_lt : rb.head < size_mod
  pub tail_lt : rb.tail < size_mod
  pub held_le : held rb ≤ rb.capacity
  pub fits : rb.capacity * rb.elem_size < size_mod
  pub block : Bytes
  pub stored : rb.buffer ≡ some block
  pub sized : length block ≡ rb.capacity * rb.elem_size

-- The elements, oldest first.
abbrev pub queue_of : {S : Type 0} → RingBuffer S → List Bytes
queue_of rb =
    tabulate (held rb) (λ i. slot rb.elem_size (bytes_of rb.buffer) ((rb.head + i) % rb.capacity))

pub length-queue_of : {S : Type 0} (rb : RingBuffer S) → length (queue_of rb) ≡ held rb
length-queue_of rb = length-tabulate (held rb) _
