-- ===== src/Ds/Vector/Lifetime.antt =====
-- d4np_vector_init and d4np_vector_destroy.
use egl_utils_c.Base.{
  ℕ, ◌*◌, ◌≤◌, ◌<◌, ◌≡◌, refl, sym, ap, subst, ◌∙◌, arith, Option, none, some, List, [], Bytes,
  length, mul_size_exact, Bool-cases, inl, inr, ltb, false, ◌==◌,
}
use egl_utils_c.Core.Status.{ok}
use egl_utils_c.Core.Allocator.{Allocator, Libc, IsAllocator, or_default, free}
use egl_utils_c.Ds.Vector.{Vector, init, reserve_live, destroy, destroy_block}
use egl_utils_c.Ds.Vector.Contents.{Holds, IsValid, contents}
use egl_utils_c.Ds.Vector.Reserve.{Reserved, reserve-Reserved}

abbrev pub contents_of : {S : Type 0} → Option (Vector S) → List Bytes
contents_of none = []
contents_of (some v) = contents v

module _ {S : Type 0} (libc : Libc S) where
  -- d4np_vector_init with a positive element size and a lawful allocator makes a valid vector with
  -- no elements, and one with the requested capacity if it succeeds.
  pub init-IsValid :
      (storage : Vector S) (allocator : Option (Allocator S)) (elem_size initial : ℕ) (s : S)
      → IsAllocator libc.address (or_default libc allocator)
      → 0 < elem_size
      → let (st, pv, s') = init libc (some storage) allocator elem_size initial s in
        (v : Vector S) × (pv ≡ some v)
        × IsValid libc v
        × (contents v ≡ [])
        × (v.elem_size ≡ elem_size)
        × (st ≡ ok → initial ≤ v.capacity)
  unfolding init
  init-IsValid storage allocator elem_size initial s lawful pos =
      let nonzero : (elem_size == 0) ≡ false = ground arith in
      rw nonzero (elim (Bool-cases (ltb 0 initial)) [
        | inl some_room ↦ rw some_room (_, refl, res.valid, res.same, res.same_size, res.room)
        | inr lazy ↦ rw lazy (fresh, refl, fresh-IsValid, refl, refl, λ _. ground arith)
      ])
    where
      fresh : Vector S
      fresh = record {
        allocator = some (or_default libc allocator);
        block = none;
        elem_size = elem_size;
        len = 0;
        capacity = 0;
      }

      fresh-IsValid : IsValid libc fresh
      fresh-IsValid = record {
        lawful = lawful;
        elem_pos = pos;
        len_le = omega arith;
        fits = omega arith;
        holds = omega arith;
      }

      res : Reserved libc fresh initial (reserve_live libc fresh initial s)
      res = reserve-Reserved libc fresh initial s fresh-IsValid

  -- d4np_vector_destroy hands the block back with exactly its size, and leaves a vector with no
  -- block, so that a second call frees nothing.
  pub destroy_frees :
      (v : Vector S) (b : Bytes) (s : S)
      → IsValid libc v
      → v.block ≡ some b
      → let (pv, s') = destroy libc (some v) s in
        (s' ≡ free libc v.allocator (some b) (length b) s)
        × (destroy libc pv s' ≡ (pv, s'))
        × (contents_of pv ≡ [])
  unfolding destroy
  destroy_frees v b s valid e = rw done (refl, refl, refl)
    where
      size : length b ≡ v.capacity * v.elem_size
      size = subst (λ o. Holds o (v.capacity * v.elem_size)) e valid.holds

      done : destroy_block libc v v.block s ≡ (
        record v { block = none; len = 0; capacity = 0 },
        free libc v.allocator (some b) (length b) s,
      )
      done =
          ap (λ o. destroy_block libc v o s) e
          ∙ ap
              (λ n. (
                record v { block = none; len = 0; capacity = 0 },
                free libc v.allocator (some b) n s,
              ))
              (mul_size_exact _ _ valid.fits ∙ sym size)
