-- ===== src/Ds/Vector/Push.antt =====
-- d4np_vector_push.
use egl_utils_c.Base.{
  bytes_of, ℕ, ◌+◌, ◌*◌, ◌^◌, ◌≤◌, ◌<◌, ◌≡◌, ◌≢◌, refl, sym, ap, ap₂, ◌∙◌, arith, Option, none,
  some, [], ◌∷◌, ◌++◌, Bytes, length, take_all, tabulate_cong, tabulate_snoc, slot, size_mod,
  mul_size_exact, add_size_exact, Bool-cases, inl, inr, leb, true, le→leb, Ensures, overwrite,
  length-overwrite, slot-overwrite_self, slot-overwrite_ne, ◌⊎◌, ◌==◌,
}
use egl_utils_c.Core.Status.{Status, ok}
use egl_utils_c.Core.Allocator.{Libc}
use egl_utils_c.Ds.Vector.{Vector, append, make_room, after_room, push}
use egl_utils_c.Ds.Vector.Contents.{Holds, IsValid, contents}
use egl_utils_c.Ds.Vector.Reserve.{Reserved, Reserved-weaken, Reserved-unchanged, reserve-Reserved}

module _ {S : Type 0} (libc : Libc S) where
  -- Where there is room there is a block of the right size.
  pub has_block :
      (v : Vector S)
      → IsValid libc v
      → 0 < v.capacity
      → (b : Bytes) × (v.block ≡ some b) × (length b ≡ v.capacity * v.elem_size)
  has_block v valid room = go v.block refl valid.holds
    where
      go :
          (o : Option Bytes)
          → v.block ≡ o
          → Holds o (v.capacity * v.elem_size)
          → (b : Bytes) × (v.block ≡ some b) × (length b ≡ v.capacity * v.elem_size)
      go none e h = absurd (grind (arith, valid.elem_pos))
      go (some b) e h = (b, e, h)

  pub slot_end :
      (v : Vector S) (i : ℕ)
      → i < v.capacity
      → i * v.elem_size + v.elem_size ≤ v.capacity * v.elem_size
  slot_end v i h = grind arith

  -- The vector after the copy.
  abbrev appended : Vector S → Bytes → Bytes → Vector S
  appended v b e = record v { block = some (overwrite (v.len * v.elem_size) e b); len = v.len + 1 }

  append-appended :
      (v : Vector S) (b e : Bytes)
      → IsValid libc v
      → v.block ≡ some b
      → length b ≡ v.capacity * v.elem_size
      → v.len < v.capacity
      → length e ≡ v.elem_size
      → append v e ≡ some (appended v b e)
  unfolding append
  append-appended v b e valid eb size room fit =
      let below : v.len * v.elem_size < size_mod =
        omega (arith, slot_end v v.len room, valid.fits) in
      let small : v.len + 1 < size_mod = grind (arith, valid.fits, valid.elem_pos) in
      let readable : leb (0 + v.elem_size) (length e) ≡ true = le→leb _ _ (omega arith) in
      let writable : leb (v.len * v.elem_size + length e) (length b) ≡ true =
        le→leb _ _ (omega (arith, slot_end v v.len room)) in
      rw
        (
          eb,
          mul_size_exact v.len v.elem_size below,
          add_size_exact v.len 1 small,
          readable,
          take_all v.elem_size e (omega arith),
          writable,
        )
        refl

  appended-IsValid :
      (v : Vector S) (b e : Bytes)
      → IsValid libc v
      → length b ≡ v.capacity * v.elem_size
      → v.len < v.capacity
      → IsValid libc (appended v b e)
  appended-IsValid v b e valid size room = record {
    lawful = valid.lawful;
    elem_pos = valid.elem_pos;
    len_le = omega arith;
    fits = valid.fits;
    holds = length-overwrite (v.len * v.elem_size) e b ∙ size;
  }

  contents-appended :
      (v : Vector S) (b e : Bytes)
      → v.block ≡ some b
      → length b ≡ v.capacity * v.elem_size
      → v.len < v.capacity
      → length e ≡ v.elem_size
      → contents (appended v b e) ≡ contents v ++ (e ∷ [])
  contents-appended v b e eb size room fit =
      tabulate_snoc v.len _
      ∙ ap₂ (λ l x. l ++ (x ∷ []))
          (tabulate_cong v.len _ _ λ i lt.
            slot-overwrite_ne v.elem_size b i v.len e fit (omega arith)
            ∙ ap (λ o. slot v.elem_size (bytes_of o) i) (sym eb))
          (slot-overwrite_self v.elem_size b v.len e fit (omega (arith, slot_end v v.len room)))

  make_room-Reserved :
      (v : Vector S) (s : S)
      → IsValid libc v
      → v.capacity < 2 ^ 63
      → Reserved libc v (v.len + 1) (make_room libc v s)
  unfolding make_room
  make_room-Reserved v s valid small = elim (Bool-cases (v.len == v.capacity)) [
    | inl full ↦
        rw full (
          Reserved-weaken libc v _ (v.len + 1) _ (ground arith) (reserve-Reserved libc v _ s valid))
    | inr spare ↦
        rw spare
          (Reserved-unchanged libc v (v.len + 1) ok s valid (λ _. ground (arith, valid.len_le)))
  ]

  -- The result of d4np_vector_push: success appends the element, failure changes nothing.
  abbrev pub Pushed : Vector S → Bytes → Status × Option (Vector S) × S → Type 0
  Pushed v e (st, out, s) =
      (v' : Vector S) × (out ≡ some v')
      × IsValid libc v'
      × (((st ≡ ok) × (contents v' ≡ contents v ++ (e ∷ []))) ⊎ ((st ≢ ok) × (v' ≡ v)))

  after_room-Pushed :
      (v : Vector S) (e : Bytes) (r : Status × Vector S × S)
      → length e ≡ v.elem_size
      → Reserved libc v (v.len + 1) r
      → Ensures (Pushed v e) (after_room e r)
  unfolding after_room
  after_room-Pushed v e (ok, v', s) fit res =
      let room : v'.len < v'.capacity = omega (arith, res.room refl, res.same_len) in
      let (b, eb, size) = has_block v' res.valid (omega arith) in
      let fit' : length e ≡ v'.elem_size = omega (arith, res.same_size) in
      rw (append-appended v' b e res.valid eb size room fit') (
        appended v' b e,
        refl,
        appended-IsValid v' b e res.valid size room,
        inl (refl, contents-appended v' b e eb size room fit' ∙ ap (λ l. l ++ (e ∷ [])) res.same),
      )
  after_room-Pushed v e (st, v', s) fit res = (v', refl, res.valid, inr ((cc), res.kept (cc)))

  -- d4np_vector_push of an element on a valid vector with a capacity below 2^63, which the doubling
  -- of the capacity cannot wrap, never leaves the block; it appends the element and succeeds, or fails
  -- and changes nothing, and the vector stays valid.
  pub push-Pushed :
      (v : Vector S) (e : Bytes) (s : S)
      → IsValid libc v
      → v.capacity < 2 ^ 63
      → length e ≡ v.elem_size
      → Ensures (Pushed v e) (push libc (some v) (some e) s)
  unfolding push
  push-Pushed v e s valid small fit =
      after_room-Pushed v e _ fit (make_room-Reserved v s valid small)
