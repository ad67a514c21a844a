-- ===== src/Mem/Arena/Alloc.antt =====
-- d4np_arena_alloc.
use egl_utils_c.Base.{
  ℕ, ◌+◌, ◌%◌, ◌^◌, ◌≤◌, ◌<◌, ◌≡◌, ◌≢◌, refl, arith, Bool, true, false, Option, none, some,
  size_mod, add_size, sub_size, ltb, ◌==◌, Bool-cases, inl, inr, ◌⊎◌,
}
use egl_utils_c.Mem.Arena.{Arena, align_up, bump, alloc}
use egl_utils_c.Mem.Arena.Align.{
  grain, IsLeastMultiple, IsLeastMultiple-le, AlignedUp, align_up-AlignedUp,
}

pub record IsValid {S : Type 0} (arena : Arena S) : Type 0 where
  pub within : arena.offset ≤ arena.capacity
  pub capacity_lt : arena.capacity < size_mod

module _ {S : Type 0} where
  -- What d4np_arena_alloc does: it hands out the least aligned range from the offset on, and moves
  -- the offset to its end; or it returns NULL, changes nothing, and no aligned range of that size
  -- was left.
  abbrev pub Allocated : ℕ → ℕ → Arena S → Option ℕ × Option (Arena S) → Type 0
  Allocated k size arena (p, out) =
      ((p ≡ none)
        × (out ≡ some arena)
        × ((size ≢ 0) → (q : ℕ) → arena.offset ≤ q → q % 2 ^ k ≡ 0 → arena.capacity < q + size))
      ⊎ ((q : ℕ) × (p ≡ some q)
          × (out ≡ some (record arena { offset = q + size }))
          × IsLeastMultiple k arena.offset q
          × (0 < size)
          × (q + size ≤ arena.capacity))

  bump-Allocated :
      (k size : ℕ) (arena : Arena S) (r : ℕ × Bool)
      → IsValid arena
      → 0 < size
      → AlignedUp k arena.offset r
      → Allocated k size arena (bump arena size r)
  unfolding bump
  bump-Allocated k size arena (r, overflow) v pos (inl (e, none_below)) =
      rw e (inl (refl, refl, λ ne q from eq. omega (arith, none_below q from eq, v.capacity_lt)))
  bump-Allocated k size arena (r, overflow) v pos (inr (e, least)) =
      rw e (elim (Bool-cases (ltb arena.capacity r)) [
        | inl past ↦ rw past (
            inl (
              refl,
              refl,
              λ ne q from eq. beyond past q (IsLeastMultiple-le k arena.offset r q least from eq),
            ))
        | inr inside ↦ rw inside (elim (Bool-cases (ltb (sub_size arena.capacity r) size)) [
          | inl big ↦ rw big (
              inl (
                refl,
                refl,
                λ ne q from eq.
                    too_big inside big q (IsLeastMultiple-le k arena.offset r q least from eq),
              ))
          | inr fine ↦
              rw (fine, exact inside fine) (inr (r, refl, refl, least, pos, fits inside fine))
        ])
      ])
    where
      beyond : ltb arena.capacity r ≡ true → (q : ℕ) → r ≤ q → arena.capacity < q + size
      beyond past q le = ground arith

      too_big :
          ltb arena.capacity r ≡ false
          → ltb (sub_size arena.capacity r) size ≡ true
          → (q : ℕ) → r ≤ q
          → arena.capacity < q + size
      too_big inside big q le = ground (arith, v.capacity_lt)

      fits :
          ltb arena.capacity r ≡ false
          → ltb (sub_size arena.capacity r) size ≡ false
          → r + size ≤ arena.capacity
      fits inside fine = ground (arith, v.capacity_lt)

      exact :
          ltb arena.capacity r ≡ false
          → ltb (sub_size arena.capacity r) size ≡ false
          → add_size r size ≡ r + size
      exact inside fine = omega (arith, fits inside fine, v.capacity_lt)

  -- d4np_arena_alloc with an alignment 2^k (0 stands for 1) on a valid arena hands out the least
  -- aligned range of `size` bytes from the offset on, or returns NULL with nothing changed; NULL
  -- means that the size is 0 or that no aligned range from the offset on fits.
  pub alloc-Allocated :
      (k size align : ℕ) (arena : Arena S)
      → IsValid arena
      → k ≤ 63
      → grain align ≡ 2 ^ k
      → Allocated k size arena (alloc (some arena) size align)
  alloc-Allocated k size align arena v k_le e =
      unfold alloc in
      elim (Bool-cases (size == 0)) [
        | inl zero ↦ rw zero (inl (refl, refl, λ ne. absurd (ne (ground arith))))
        | inr more ↦ rw more (
            bump-Allocated k size arena (align_up arena.offset align) v (ground arith) (
              align_up-AlignedUp k arena.offset k_le (omega (arith, v.within, v.capacity_lt)) align
                e))
      ]
