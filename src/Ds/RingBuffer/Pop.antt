-- ===== src/Ds/RingBuffer/Pop.antt =====
-- d4np_ring_buffer_pop on a valid ring buffer.
use egl_utils_c.Base.{
  ℕ, suc, ◌+◌, ◌%◌, ◌≡◌, ◌≢◌, refl, sym, ap, ap₂, ◌∙◌, arith, Bool, true, false, Option, some, [],
  ◌∷◌, Bytes, length, tabulate, slot, add_size, mul_size, tabulate-cons, tabulate_cong, bytes_of,
  bit_and, copy_out, copy_out-received, length-slot, received, RoomFor, Ensures, Bool-cases, inl,
  inr, ◌==◌, ◌⊎◌,
}
use native.Mathlib.Nat.{mod-add-mod}
use egl_utils_c.Ds.RingBuffer.{RingBuffer, pop}
use egl_utils_c.Ds.RingBuffer.Contents.{IsValid, held, queue_of}
use egl_utils_c.Ds.RingBuffer.Push.{masked_index, word_index, exact_offset, in_block}

module _ {S : Type 0} (rb : RingBuffer S) (v : IsValid rb) where
  open v use {bits, bits_le, pow, masked, block, stored, sized}

  abbrev popped : RingBuffer S
  popped = record rb { head = add_size rb.head 1 }

  abbrev oldest : Bytes
  oldest = slot rb.elem_size (bytes_of rb.buffer) ((rb.head + 0) % rb.capacity)

  held-popped : rb.head ≢ rb.tail → held rb ≡ suc (held popped)
  held-popped some_held = omega (arith, v.tail_lt, v.head_lt)

  popped-IsValid : rb.head ≢ rb.tail → IsValid popped
  popped-IsValid some_held = record {
    elem_pos = v.elem_pos;
    bits = bits;
    bits_le = bits_le;
    pow = pow;
    masked = masked;
    head_lt = omega arith;
    tail_lt = v.tail_lt;
    held_le = omega (arith, held-popped some_held, v.held_le);
    fits = v.fits;
    block = block;
    stored = stored;
    sized = sized;
  }

  -- Moving the head on by one, also round the end of the word, shifts every index by one.
  next_index : (i : ℕ) → (rb.head + suc i) % rb.capacity ≡ (add_size rb.head 1 + i) % rb.capacity
  next_index i =
      let shift : rb.head + suc i ≡ rb.head + 1 + i = omega arith in
      ap (λ x. x % rb.capacity) shift
      ∙ sym (mod-add-mod (rb.head + 1) rb.capacity i)
      ∙ ap (λ x. (x + i) % rb.capacity) (sym (word_index rb v (rb.head + 1)))
      ∙ mod-add-mod (add_size rb.head 1) rb.capacity i

  queue_of-popped : rb.head ≢ rb.tail → queue_of rb ≡ oldest ∷ queue_of popped
  queue_of-popped some_held =
      ap (λ n. tabulate n before) (held-popped some_held)
      ∙ tabulate-cons (held popped) before
      ∙ ap (λ l. oldest ∷ l)
          (tabulate_cong (held popped) _ _
            λ i lt. ap (slot rb.elem_size (bytes_of rb.buffer)) (next_index i))
    where
      before : ℕ → Bytes
      before i = slot rb.elem_size (bytes_of rb.buffer) ((rb.head + i) % rb.capacity)

  pop-popped :
      (out : Option Bytes)
      → RoomFor out rb.elem_size
      → (rb.head == rb.tail) ≡ false
      → pop (some rb) out ≡ some (true, some popped, received out oldest)
  pop-popped out room some_held = unfold pop in rw (some_held, copied) refl
    where
      front : bit_and rb.head rb.mask ≡ (rb.head + 0) % rb.capacity
      front =
          let e : rb.head ≡ rb.head + 0 = omega arith in
          masked_index rb v rb.head ∙ ap (λ x. x % rb.capacity) e

      copied :
          copy_out out rb.buffer (mul_size (bit_and rb.head rb.mask) rb.elem_size) rb.elem_size
          ≡ some (received out oldest)
      copied =
          ap₂ (λ o x. copy_out out o (mul_size x rb.elem_size) rb.elem_size) stored front
          ∙ ap (λ off. copy_out out (some block) off rb.elem_size) (exact_offset rb v (rb.head + 0))
          ∙ copy_out-received out block _ rb.elem_size (in_block rb v (rb.head + 0)) room
          ∙ ap
              (λ o.
                some (received out (slot rb.elem_size (bytes_of o) ((rb.head + 0) % rb.capacity))))
              (sym stored)

  -- An empty ring buffer is left alone; otherwise the oldest element is taken out and copied.
  abbrev pub Dequeued : Option Bytes → Bool × Option (RingBuffer S) × Option Bytes → Type 0
  Dequeued out (done, pv, out') =
      ((done ≡ false) × (queue_of rb ≡ []) × (pv ≡ some rb) × (out' ≡ out))
      ⊎ ((rb' : RingBuffer S) × (x : Bytes) × (done ≡ true)
          × (pv ≡ some rb')
          × IsValid rb'
          × (rb'.capacity ≡ rb.capacity)
          × (rb'.elem_size ≡ rb.elem_size)
          × (queue_of rb ≡ x ∷ queue_of rb')
          × (length x ≡ rb.elem_size)
          × (out' ≡ received out x))

  -- d4np_ring_buffer_pop on a valid ring buffer reads inside the block. It fails exactly if no
  -- element is held, and otherwise takes the oldest out and copies it to `out`, if not NULL.
  pub pop-Dequeued :
      (out : Option Bytes) → RoomFor out rb.elem_size → Ensures (Dequeued out) (pop (some rb) out)
  pop-Dequeued out room = elim (Bool-cases (rb.head == rb.tail)) [
    | inl empty ↦ rw (pop-empty empty) (inl (refl, nothing empty, refl, refl))
    | inr more ↦
        let some_held : rb.head ≢ rb.tail = ground arith in
        rw (pop-popped out room more) (
          inr (
            popped,
            oldest,
            refl,
            refl,
            popped-IsValid some_held,
            refl,
            refl,
            queue_of-popped some_held,
            oldest_size,
            refl,
          ))
  ]
    where
      pop-empty : (rb.head == rb.tail) ≡ true → pop (some rb) out ≡ some (false, some rb, out)
      pop-empty empty = unfold pop in rw empty refl

      nothing : (rb.head == rb.tail) ≡ true → queue_of rb ≡ []
      nothing empty =
          let none_held : held rb ≡ 0 = ground (arith, v.tail_lt) in
          ap
            (λ n.
              tabulate n
                (λ i. slot rb.elem_size (bytes_of rb.buffer) ((rb.head + i) % rb.capacity)))
            none_held

      oldest_size : length oldest ≡ rb.elem_size
      oldest_size =
          ap (λ o. length (slot rb.elem_size (bytes_of o) ((rb.head + 0) % rb.capacity))) stored
          ∙ length-slot rb.elem_size block _ (in_block rb v (rb.head + 0))
