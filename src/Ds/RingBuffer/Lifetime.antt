-- ===== src/Ds/RingBuffer/Lifetime.antt =====
-- d4np_ring_buffer_init and d4np_ring_buffer_destroy.
use egl_utils_c.Base.{
  mul-lt_of_le_div, ℕ, ◌*◌, ◌/◌, ◌^◌, ◌≤◌, ◌<◌, ◌≡◌, ◌≢◌, refl, sym, ap, ◌∙◌, arith, false, ◌||◌,
  Option, none, some, [], Bytes, length, size_mod, size_max, mul_size_exact, IsLeastPow2,
  double_until-IsLeastPow2, Bool-cases, inl, inr, ltb, ◌==◌, ◌⊎◌,
}
use native.Mathlib.Nat.{pow-le-pow_right, one-le-pow}
use egl_utils_c.Core.Status.{Status, ok}
use egl_utils_c.Core.Allocator.{Allocator, Libc, IsAllocator, or_default, alloc, free, max_align}
use egl_utils_c.Ds.RingBuffer.{
  RingBuffer, next_pow2_at_least, set_up, init, destroy, destroy_buffer,
}
use egl_utils_c.Ds.RingBuffer.Contents.{IsValid, queue_of}

-- The loop of next_pow2_at_least ends, for every `n`, after it has looked at 64 values at most. It
-- gives the least power of two that is at least `n`; for `n` above 2^63 there is none in the word,
-- and it gives 2^63.
pub next_pow2_at_least-IsLeastPow2 :
    (n : ℕ) → (c : ℕ) × (next_pow2_at_least n ≡ some c) × IsLeastPow2 0 n c
unfolding next_pow2_at_least
next_pow2_at_least-IsLeastPow2 n = double_until-IsLeastPow2 64 0 n (omega arith) (omega arith)

module _ {S : Type 0} (libc : Libc S) where
  -- What d4np_ring_buffer_init leaves behind: a valid, empty ring buffer of a power of two slots
  -- that are at least as many as asked for, or the object as it was.
  abbrev pub SetUp : RingBuffer S → ℕ → ℕ → Status × Option (RingBuffer S) × S → Type 0
  SetUp rb elem_size capacity r =
      ((r.0 ≢ ok) × (r.1 ≡ some rb))
      ⊎ ((rb' : RingBuffer S) × (r.0 ≡ ok)
          × (r.1 ≡ some rb')
          × IsValid rb'
          × (rb'.elem_size ≡ elem_size)
          × (capacity ≤ rb'.capacity)
          × (queue_of rb' ≡ []))

  set_up-SetUp :
      (rb : RingBuffer S) (allocator : Option (Allocator S)) (elem_size capacity cap : ℕ) (s : S)
      (r : Option Bytes × S)
      → IsAllocator libc.address (or_default libc allocator)
      → 0 < elem_size
      → IsLeastPow2 0 capacity cap
      → capacity ≤ 2 ^ 63
      → cap * elem_size < size_mod
      → alloc libc (some (or_default libc allocator)) (cap * elem_size) max_align s ≡ r
      → SetUp rb elem_size capacity (set_up libc rb allocator elem_size cap r)
  unfolding set_up alloc
  set_up-SetUp rb allocator elem_size capacity cap s (none, s') lawful pos p small fits e =
      inl ((cc), refl)
  set_up-SetUp rb allocator elem_size capacity cap s (some b, s') lawful pos p small fits e = inr (
    _,
    refl,
    refl,
    record {
      elem_pos = pos;
      bits = p.bits;
      bits_le = p.bits_le;
      pow = p.pow;
      masked =
          omega
            (arith, p.pow, one-le-pow p.bits 2, pow-le-pow_right {n = 2} (omega arith) p.bits_le);
      head_lt = omega arith;
      tail_lt = omega arith;
      held_le = omega arith;
      fits = fits;
      block = b;
      stored = refl;
      sized = lawful.alloc_size _ _ _ _ _ e;
    },
    refl,
    p.enough small,
    refl,
  )

  -- d4np_ring_buffer_init with a lawful allocator, a positive element size and a capacity from 1 to
  -- 2^63 returns: it sets up a valid empty ring buffer with at least that many slots, or fails and writes nothing.
  pub init-SetUp :
      (rb : RingBuffer S) (allocator : Option (Allocator S)) (elem_size capacity : ℕ) (s : S)
      → IsAllocator libc.address (or_default libc allocator)
      → 0 < elem_size
      → 0 < capacity
      → capacity ≤ 2 ^ 63
      → (r : Status × Option (RingBuffer S) × S) × (init libc
            (some rb)
            allocator
            elem_size
            capacity
            s
          ≡ some r)
        × SetUp rb elem_size capacity r
  init-SetUp rb allocator elem_size capacity s lawful pos some_room small =
      unfold init in
      let (cap, done, p) = next_pow2_at_least-IsLeastPow2 capacity in
      rw (guard, done)
        (elim (Bool-cases (ltb (size_max / elem_size) cap)) [
          | inl big ↦ rw big (_, refl, inl ((cc), refl))
          | inr fine ↦
              let fits : cap * elem_size < size_mod =
                mul-lt_of_le_div _ elem_size pos (ground arith) in
              rw (fine, mul_size_exact _ _ fits)
                (
                  _,
                  refl,
                  set_up-SetUp rb allocator elem_size capacity _ s _ lawful pos p small fits refl,
                )
        ])
    where
      guard : (elem_size == 0 || capacity == 0) ≡ false
      guard = ground arith

  -- d4np_ring_buffer_destroy hands the block back once, with exactly its size.
  pub ring_destroy_frees :
      (rb : RingBuffer S) (s : S) (v : IsValid rb)
      → let (pv, s') = destroy libc (some rb) s in
        (s' ≡ free libc rb.allocator (some v.block) (length v.block) s)
        × (destroy libc pv s' ≡ (pv, s'))
  unfolding destroy
  ring_destroy_frees rb s v = rw done (refl, refl)
    where
      gone : RingBuffer S
      gone = record rb { buffer = none; elem_size = 0; capacity = 0; mask = 0; head = 0; tail = 0 }

      done :
          destroy_buffer libc rb rb.buffer s
          ≡ (gone, free libc rb.allocator (some v.block) (length v.block) s)
      done =
          ap (λ o. destroy_buffer libc rb o s) v.stored
          ∙ ap (λ n. (gone, free libc rb.allocator (some v.block) n s))
              (mul_size_exact _ _ v.fits ∙ sym v.sized)
