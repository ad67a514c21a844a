-- ===== src/Ds/RingBuffer/Push.antt =====
-- d4np_ring_buffer_push on a valid ring buffer.
use egl_utils_c.Base.{
  ℕ, ◌+◌, ◌*◌, ◌%◌, ◌^◌, ◌≤◌, ◌<◌, ◌≡◌, ◌≢◌, refl, sym, ap, ap₂, ◌∙◌, arith, Bool, true, false,
  Option, some, [], ◌∷◌, ◌++◌, Bytes, length, tabulate, slot, size_mod, add_size, mul_size,
  mul_size_exact, tabulate_snoc, tabulate_cong, overwrite, length-overwrite, slot-overwrite_self,
  slot-overwrite_ne, bytes_of, bit_and, bit_and-low_mask, mod_word-mod, mod-ne_of_near, le→leb,
  take_all, Ensures, Bool-cases, inl, inr, ◌==◌, ◌⊎◌,
}
use native.Mathlib.Nat.{pow-le-pow_right, mod-lt, one-le-pow}
use egl_utils_c.Ds.RingBuffer.{RingBuffer, push}
use egl_utils_c.Ds.RingBuffer.Contents.{IsValid, held, queue_of, length-queue_of}

module _ {S : Type 0} (rb : RingBuffer S) (v : IsValid rb) where
  open v use {bits, bits_le, pow, masked, block, stored, sized}

  pub capacity-le : rb.capacity ≤ 2 ^ 63
  capacity-le = omega (arith, pow, pow-le-pow_right {n = 2} (omega arith) bits_le)

  pub capacity_pos : 0 < rb.capacity
  capacity_pos = omega (arith, pow, one-le-pow bits 2)

  -- The mask takes the remainder by the capacity.
  pub masked_index : (x : ℕ) → bit_and x rb.mask ≡ x % rb.capacity
  masked_index x = ap (bit_and x) masked ∙ bit_and-low_mask x bits ∙ ap (λ c. x % c) (sym pow)

  pub word_index : (x : ℕ) → x % size_mod % rb.capacity ≡ x % rb.capacity
  word_index x =
      ap (λ c. x % size_mod % c) pow ∙ mod_word-mod x bits (omega arith) ∙ ap (λ c. x % c) (sym pow)

  tail_index : bit_and rb.tail rb.mask ≡ (rb.head + held rb) % rb.capacity
  tail_index =
      let e : rb.tail ≡ (rb.head + held rb) % size_mod = omega (arith, v.tail_lt, v.head_lt) in
      masked_index rb.tail ∙ ap (λ t. t % rb.capacity) e ∙ word_index (rb.head + held rb)

  pub in_block : (x : ℕ) → x % rb.capacity * rb.elem_size + rb.elem_size ≤ length block
  in_block x = index_end (x % rb.capacity) (mod-lt x capacity_pos)
    where
      index_end : (i : ℕ) → i < rb.capacity → i * rb.elem_size + rb.elem_size ≤ length block
      index_end i lt = grind (arith, sized)

  pub exact_offset :
      (x : ℕ) → mul_size (x % rb.capacity) rb.elem_size ≡ x % rb.capacity * rb.elem_size
  exact_offset x =
      mul_size_exact (x % rb.capacity) rb.elem_size
        (omega (arith, in_block x, sized, v.fits, v.elem_pos))

  abbrev pushed : Bytes → RingBuffer S
  pushed e = record rb {
    buffer = some (overwrite ((rb.head + held rb) % rb.capacity * rb.elem_size) e block);
    tail = add_size rb.tail 1;
  }

  held-pushed : (e : Bytes) → held rb ≢ rb.capacity → held (pushed e) ≡ held rb + 1
  held-pushed e room = omega (arith, v.held_le, v.tail_lt, v.head_lt, capacity-le)

  pushed-IsValid : (e : Bytes) → held rb ≢ rb.capacity → IsValid (pushed e)
  pushed-IsValid e room = record {
    elem_pos = v.elem_pos;
    bits = bits;
    bits_le = bits_le;
    pow = pow;
    masked = masked;
    head_lt = v.head_lt;
    tail_lt = omega arith;
    held_le = omega (arith, held-pushed e room, v.held_le);
    fits = v.fits;
    block = overwrite ((rb.head + held rb) % rb.capacity * rb.elem_size) e block;
    stored = refl;
    sized = length-overwrite ((rb.head + held rb) % rb.capacity * rb.elem_size) e block ∙ sized;
  }

  queue_of-pushed :
      (e : Bytes)
      → length e ≡ rb.elem_size
      → held rb ≢ rb.capacity
      → queue_of (pushed e) ≡ queue_of rb ++ (e ∷ [])
  queue_of-pushed e fit room =
      ap (λ n. tabulate n after) (held-pushed e room)
      ∙ tabulate_snoc (held rb) after
      ∙ ap₂ (λ l x. l ++ (x ∷ []))
          (tabulate_cong (held rb) _ _ λ i lt.
            slot-overwrite_ne rb.elem_size block _ _ e fit
              (mod-ne_of_near rb.head rb.capacity i (held rb) lt (omega (arith, v.held_le)))
            ∙ ap (λ o. slot rb.elem_size (bytes_of o) ((rb.head + i) % rb.capacity)) (sym stored))
          (slot-overwrite_self rb.elem_size block _ e fit (in_block (rb.head + held rb)))
    where
      after : ℕ → Bytes
      after i =
          slot rb.elem_size (overwrite ((rb.head + held rb) % rb.capacity * rb.elem_size) e block)
            ((rb.head + i) % rb.capacity)

  push-pushed :
      (e : Bytes)
      → length e ≡ rb.elem_size
      → (held rb == rb.capacity) ≡ false
      → push (some rb) (some e) ≡ some (true, some (pushed e))
  unfolding push
  push-pushed e fit room =
      rw
        (
          room,
          le→leb (0 + rb.elem_size) (length e) (omega arith),
          take_all rb.elem_size e (omega arith),
          tail_index,
          exact_offset (rb.head + held rb),
          stored,
          le→leb _ (length block) fits',
        )
        refl
    where
      fits' : (rb.head + held rb) % rb.capacity * rb.elem_size + length e ≤ length block
      fits' = omega (arith, in_block (rb.head + held rb))

  -- A full ring buffer refuses the element and is left alone; otherwise the element goes in behind
  -- the others.
  abbrev pub Enqueued : Bytes → Bool × Option (RingBuffer S) → Type 0
  Enqueued e (done, out) =
      ((done ≡ false) × (length (queue_of rb) ≡ rb.capacity) × (out ≡ some rb))
      ⊎ ((rb' : RingBuffer S) × (done ≡ true)
          × (length (queue_of rb) ≢ rb.capacity)
          × (out ≡ some rb')
          × IsValid rb'
          × (rb'.capacity ≡ rb.capacity)
          × (rb'.elem_size ≡ rb.elem_size)
          × (queue_of rb' ≡ queue_of rb ++ (e ∷ [])))

  -- d4np_ring_buffer_push of an element on a valid ring buffer writes inside the block. It refuses
  -- the element exactly if `capacity` elements are held, and otherwise appends it.
  pub push-Enqueued :
      (e : Bytes) → length e ≡ rb.elem_size → Ensures (Enqueued e) (push (some rb) (some e))
  push-Enqueued e fit = elim (Bool-cases (held rb == rb.capacity)) [
    | inl full ↦
        rw (push-full full) (inl (refl, omega (arith, length-queue_of rb, at_cap full), refl))
    | inr spare ↦
        let room : held rb ≢ rb.capacity = ground arith in
        rw (push-pushed e fit spare) (
          inr (
            pushed e,
            refl,
            below room,
            refl,
            pushed-IsValid e room,
            refl,
            refl,
            queue_of-pushed e fit room,
          ))
  ]
    where
      at_cap : (held rb == rb.capacity) ≡ true → held rb ≡ rb.capacity
      at_cap full = ground arith

      below : held rb ≢ rb.capacity → length (queue_of rb) ≢ rb.capacity
      below room = omega (arith, length-queue_of rb)

      push-full : (held rb == rb.capacity) ≡ true → push (some rb) (some e) ≡ some (false, some rb)
      push-full full = unfold push in rw full refl
