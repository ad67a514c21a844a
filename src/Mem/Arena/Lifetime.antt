-- ===== src/Mem/Arena/Lifetime.antt =====
-- d4np_arena_init, d4np_arena_reset, d4np_arena_destroy and the two measures.
use egl_utils_c.Base.{
  ℕ, ◌+◌, ◌<◌, ◌≡◌, refl, ap, arith, Option, none, some, Bytes, length, size_mod, inl, inr, ◌⊎◌,
  ◌==◌, false,
}
use egl_utils_c.Core.Status.{Status, ok, out_of_memory}
use egl_utils_c.Core.Allocator.{Allocator, Libc, IsAllocator, or_default, free, max_align}
use egl_utils_c.Core.Allocator.{alloc as allocate}
use egl_utils_c.Mem.Arena.{Arena, set_up, init, reset, used, remaining, destroy, destroy_base}
use egl_utils_c.Mem.Arena.Alloc.{IsValid}

module _ {S : Type 0} where
  -- On a valid arena the bytes handed out and the bytes remaining make up the capacity, before and
  -- after a reset, which makes the whole capacity available again.
  pub used-add-remaining :
      (arena : Arena S)
      → IsValid arena
      → (used (some arena) + remaining (some arena) ≡ arena.capacity)
        × (remaining (reset (some arena)) ≡ arena.capacity)
  unfolding used remaining reset
  used-add-remaining arena v =
      (omega (arith, v.within, v.capacity_lt), omega (arith, v.within, v.capacity_lt))

module _ {S : Type 0} (libc : Libc S) where
  -- What d4np_arena_init leaves behind: a valid arena over a block of `capacity` bytes, none of them
  -- handed out, or the object as it was.
  abbrev pub Fresh : Arena S → ℕ → Status × Option (Arena S) × S → Type 0
  Fresh arena capacity r =
      ((r.0 ≡ out_of_memory) × (r.1 ≡ some arena))
      ⊎ ((a : Arena S) × (block : Bytes) × (r.0 ≡ ok)
          × (r.1 ≡ some a)
          × IsValid a
          × (a.base ≡ some block)
          × (length block ≡ capacity)
          × (a.capacity ≡ capacity)
          × (a.offset ≡ 0))

  set_up-Fresh :
      (arena : Arena S) (allocator : Option (Allocator S)) (capacity : ℕ) (s : S)
      (r : Option Bytes × S)
      → IsAllocator libc.address (or_default libc allocator)
      → capacity < size_mod
      → allocate libc (some (or_default libc allocator)) capacity max_align s ≡ r
      → Fresh arena capacity (set_up libc arena allocator capacity r)
  unfolding set_up allocate
  set_up-Fresh arena allocator capacity s (none, s') lawful small e = inl (refl, refl)
  set_up-Fresh arena allocator capacity s (some b, s') lawful small e = inr (
    _,
    b,
    refl,
    refl,
    record { within = omega arith; capacity_lt = small },
    refl,
    lawful.alloc_size _ _ _ _ _ e,
    refl,
    refl,
  )

  -- d4np_arena_init with a lawful allocator and a positive capacity sets up a valid arena over a
  -- block of that many bytes, or runs out of memory and writes nothing.
  pub init-Fresh :
      (arena : Arena S) (allocator : Option (Allocator S)) (capacity : ℕ) (s : S)
      → IsAllocator libc.address (or_default libc allocator)
      → 0 < capacity
      → capacity < size_mod
      → Fresh arena capacity (init libc (some arena) allocator capacity s)
  init-Fresh arena allocator capacity s lawful pos small =
      let nonzero : (capacity == 0) ≡ false = ground arith in
      unfold init in rw nonzero (set_up-Fresh arena allocator capacity s _ lawful small refl)

  -- d4np_arena_destroy hands the block back once, with its capacity, and leaves an arena that hands
  -- nothing out.
  pub arena_destroy_frees :
      (arena : Arena S) (b : Bytes) (s : S)
      → arena.base ≡ some b
      → let (out, s') = destroy libc (some arena) s in
        (s' ≡ free libc arena.allocator (some b) arena.capacity s)
        × (destroy libc out s' ≡ (out, s'))
        × (remaining out ≡ 0)
  unfolding destroy remaining
  arena_destroy_frees arena b s e = rw (ap (λ o. destroy_base libc arena o s) e) (refl, refl, refl)
