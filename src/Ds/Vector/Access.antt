-- ===== src/Ds/Vector/Access.antt =====
-- d4np_vector_pop and d4np_vector_at.
use egl_utils_c.Base.{
  bytes_of, ℕ, ◌+◌, ◌-◌, ◌*◌, ◌≤◌, ◌<◌, ◌≡◌, refl, sym, ap, ap₂, ◌∙◌, arith, false, Option, none,
  some, [], ◌∷◌, ◌++◌, Bytes, length, tabulate, tabulate_snoc, slot, mul_size_exact, mul_size,
  Bool-cases, inl, inr, leb, le→leb, leb→le, Ensures, ◌>>=◌, ◌⊎◌, ◌==◌, get_elem?,
  get_elem?-tabulate, get_elem?-length_le, length-tabulate, received, RoomFor, copy_out,
  copy_out-received, read_at,
}
use egl_utils_c.Core.Status.{Status, ok, not_found}
use egl_utils_c.Core.Allocator.{Libc}
use egl_utils_c.Ds.Vector.{Vector, pop, at}
use egl_utils_c.Ds.Vector.Contents.{IsValid, contents}
use egl_utils_c.Ds.Vector.Push.{has_block, slot_end}

module _ {S : Type 0} (libc : Libc S) where
  -- An empty vector is left alone; otherwise the last element is taken off and copied out.
  abbrev pub Popped : Vector S → Option Bytes → Status × Option (Vector S) × Option Bytes → Type 0
  Popped v out (st, pv, out') =
      ((st ≡ not_found) × (contents v ≡ []) × (pv ≡ some v) × (out' ≡ out))
      ⊎ ((v' : Vector S) × (x : Bytes) × (st ≡ ok)
          × (pv ≡ some v')
          × IsValid libc v'
          × (contents v ≡ contents v' ++ (x ∷ []))
          × (out' ≡ received out x))

  -- d4np_vector_pop on a valid vector reports an empty one, and otherwise removes the last element,
  -- copies it to `out` if that is not NULL, and stays inside both blocks.
  pub pop-Popped :
      (v : Vector S) (out : Option Bytes)
      → IsValid libc v
      → RoomFor out v.elem_size
      → Ensures (Popped v out) (pop (some v) out)
  unfolding pop
  pop-Popped v out valid room = elim (Bool-cases (v.len == 0)) [
    | inl empty ↦
        let e : v.len ≡ 0 = ground arith in
        rw empty
          (inl (refl, ap (λ n. tabulate n (slot v.elem_size (bytes_of v.block))) e, refl, refl))
    | inr more ↦
        let pos : 0 < v.len = ground arith in
        rw more (pop_last pos (has_block libc v valid (omega (arith, valid.len_le))))
  ]
    where
      v' : Vector S
      v' = record v { len = v.len - 1 }

      split :
          0 < v.len
          → contents v ≡ contents v' ++ (slot v.elem_size (bytes_of v.block) (v.len - 1) ∷ [])
      split pos =
          let e : v.len ≡ v.len - 1 + 1 = omega arith in
          ap (λ n. tabulate n (slot v.elem_size (bytes_of v.block))) e ∙ tabulate_snoc (v.len - 1) _

      pop_last :
          0 < v.len
          → (b : Bytes) × (v.block ≡ some b) × (length b ≡ v.capacity * v.elem_size)
          → Ensures (Popped v out) (do
            out' ← copy_out out v.block (mul_size (v.len - 1) v.elem_size) v.elem_size
            some (ok, some v', out'))
      pop_last pos (b, eb, size) =
          let inside : v.len - 1 < v.capacity = omega (arith, valid.len_le) in
          let fits : (v.len - 1) * v.elem_size + v.elem_size ≤ length b =
            omega (arith, slot_end libc v (v.len - 1) inside) in
          let exact : mul_size (v.len - 1) v.elem_size ≡ (v.len - 1) * v.elem_size =
            mul_size_exact _ _ (omega (arith, valid.fits, valid.elem_pos)) in
          let last = slot v.elem_size (bytes_of v.block) (v.len - 1) in
          let copied : copy_out out v.block (mul_size (v.len - 1) v.elem_size) v.elem_size
              ≡ some (received out last) =
            ap₂ (λ o off. copy_out out o off v.elem_size) eb exact
            ∙ copy_out-received out b ((v.len - 1) * v.elem_size) v.elem_size fits room
            ∙ ap (λ o. some (received out (slot v.elem_size (bytes_of o) (v.len - 1)))) (sym eb) in
          rw copied (
            inr (
              v',
              last,
              refl,
              refl,
              record {
                lawful = valid.lawful;
                elem_pos = valid.elem_pos;
                len_le = omega (arith, valid.len_le);
                fits = valid.fits;
                holds = valid.holds;
              },
              split pos,
              refl,
            ))

  read_at-get_elem? :
      (v : Vector S) (i : ℕ)
      → IsValid libc v
      → (do p ← at (some v) i; read_at v.block p v.elem_size) ≡ get_elem? (contents v) i
  unfolding at read_at
  read_at-get_elem? v i valid = elim (Bool-cases (leb v.len i)) [
    | inl past ↦ rw past (
        sym (
          get_elem?-length_le (contents v) i (
            omega (
              arith,
              leb→le _ _ past,
              length-tabulate v.len (slot v.elem_size (bytes_of v.block)),
            ))))
    | inr inside ↦
        rw inside
          (read_inside (ground arith) (has_block libc v valid (ground (arith, valid.len_le))))
  ]
    where
      read_inside :
          i < v.len
          → (b : Bytes) × (v.block ≡ some b) × (length b ≡ v.capacity * v.elem_size)
          → read_at v.block (mul_size i v.elem_size) v.elem_size ≡ get_elem? (contents v) i
      read_inside lt (b, eb, size) =
          let fits : i * v.elem_size + v.elem_size ≤ length b =
            omega (arith, slot_end libc v i (omega (arith, valid.len_le))) in
          rw
            (
              mul_size_exact i v.elem_size (omega (arith, valid.fits, valid.elem_pos)),
              get_elem?-tabulate v.len (slot v.elem_size (bytes_of v.block)) i lt,
              eb,
              le→leb _ _ fits,
            )
            refl

  at-null : (v : Vector S) (i : ℕ) → v.len ≤ i → at (some v) i ≡ none
  unfolding at
  at-null v i past = rw (le→leb v.len i past) refl

  at-offset : (v : Vector S) (i : ℕ) → i < v.len → (p : ℕ) × (at (some v) i ≡ some p)
  unfolding at
  at-offset v i inside =
      let test : leb v.len i ≡ false = ground arith in rw test (mul_size i v.elem_size, refl)

  -- d4np_vector_at is NULL exactly for an index past the end, where the contents have no element;
  -- otherwise it points into the block, at the bytes of the element of that index.
  pub at-get_elem? :
      (v : Vector S) (i : ℕ)
      → IsValid libc v
      → ((at (some v) i ≡ none) × (get_elem? (contents v) i ≡ none))
        ⊎ ((p : ℕ) × (x : Bytes) × (at (some v) i ≡ some p)
            × (get_elem? (contents v) i ≡ some x)
            × (read_at v.block p v.elem_size ≡ some x))
  at-get_elem? v i valid = elim order [
    | inr past ↦ inl (
      at-null v i past,
      get_elem?-length_le (contents v) i
          (omega (arith, length-tabulate v.len (slot v.elem_size (bytes_of v.block)))),
    )
    | inl inside ↦
        let (p, at_p) = at-offset v i inside in
        let there = get_elem?-tabulate v.len (slot v.elem_size (bytes_of v.block)) i inside in
        let pointed : read_at v.block p v.elem_size
            ≡ (do q ← at (some v) i; read_at v.block q v.elem_size) =
          ap (λ o. o >>= (λ q. read_at v.block q v.elem_size)) (sym at_p) in
        inr (p, _, at_p, there, pointed ∙ read_at-get_elem? v i valid ∙ there)
  ]
    where
      order : (i < v.len) ⊎ (v.len ≤ i)
      order = omega arith
