-- ===== src/Ds/Vector/Reserve.antt =====
-- d4np_vector_reserve.
use egl_utils_c.Base.{
  mul-lt_of_le_div, bytes_of, ℕ, ◌*◌, ◌/◌, ◌≤◌, ◌<◌, ◌≡◌, ◌≢◌, refl, arith, Option, none, some,
  Bytes, tabulate, tabulate_cong, slot, slot_prefix, size_mod, size_max, mul_size_exact, Bool-cases,
  inl, inr, leb, ltb, leb→le,
}
use native.Mathlib.Nat.{le_refl}
use egl_utils_c.Core.Status.{Status, ok, overflow, out_of_memory}
use egl_utils_c.Core.Allocator.{Libc, realloc, max_align, Keeps, SizeOf}
use egl_utils_c.Ds.Vector.{Vector, reserve_live, grow_to}
use egl_utils_c.Ds.Vector.Contents.{Holds, IsValid, contents}

module _ {S : Type 0} (libc : Libc S) where
  -- What reserve leaves behind: a valid vector with the same elements; on success the room that was
  -- asked for, and on failure the vector as it was.
  pub record Reserved (v : Vector S) (n : ℕ) (out : Status × Vector S × S) : Type 0 where
    pub valid : IsValid libc out.1
    pub same : contents out.1 ≡ contents v
    pub same_len : out.1.len ≡ v.len
    pub same_size : out.1.elem_size ≡ v.elem_size
    pub room : out.0 ≡ ok → n ≤ out.1.capacity
    pub kept : out.0 ≢ ok → out.1 ≡ v

  pub Reserved-weaken :
      (v : Vector S) (n m : ℕ) (out : Status × Vector S × S)
      → m ≤ n
      → Reserved v n out
      → Reserved v m out
  Reserved-weaken v n m out h r = record {
    valid = r.valid;
    same = r.same;
    same_len = r.same_len;
    same_size = r.same_size;
    room = λ e. omega (arith, r.room e);
    kept = r.kept;
  }

  pub Reserved-unchanged :
      (v : Vector S) (n : ℕ) (st : Status) (s : S)
      → IsValid libc v
      → (st ≡ ok → n ≤ v.capacity)
      → Reserved v n (st, v, s)
  Reserved-unchanged v n st s valid room = record {
    valid = valid;
    same = refl;
    same_len = refl;
    same_size = refl;
    room = room;
    kept = λ _. refl;
  }

  slots-Keeps :
      (v : Vector S) (p : Bytes)
      → IsValid libc v
      → Keeps v.block (v.capacity * v.elem_size) p
      → tabulate v.len (slot v.elem_size p) ≡ contents v
  slots-Keeps v p valid keeps = go v.block valid.holds keeps
    where
      go :
          (b : Option Bytes)
          → Holds b (v.capacity * v.elem_size)
          → Keeps b (v.capacity * v.elem_size) p
          → tabulate v.len (slot v.elem_size p) ≡ tabulate v.len (slot v.elem_size (bytes_of b))
      go none h k =
          tabulate_cong v.len _ _ λ i lt. absurd (grind (arith, valid.elem_pos, valid.len_le))
      go (some b) h k =
          tabulate_cong v.len _ _
            λ i lt. slot_prefix v.elem_size v.capacity p b i k (omega (arith, valid.len_le))

  Holds-SizeOf : (n : ℕ) (o : Option Bytes) → Holds o n → SizeOf o n
  Holds-SizeOf n none h = tt
  Holds-SizeOf n (some b) h = h

  grow_to-Reserved :
      (v : Vector S) (n : ℕ) (s : S) (r : Option Bytes × S)
      → IsValid libc v
      → v.capacity < n
      → n * v.elem_size < size_mod
      → realloc libc v.allocator v.block (v.capacity * v.elem_size) (n * v.elem_size) max_align s
        ≡ r
      → Reserved v n (grow_to libc v n r)
  unfolding grow_to realloc
  grow_to-Reserved v n s (none, s') valid more fits e =
      Reserved-unchanged v n out_of_memory s' valid (cc)
  grow_to-Reserved v n s (some p, s') valid more fits e = record {
    valid = record {
      lawful = valid.lawful;
      elem_pos = valid.elem_pos;
      len_le = omega (arith, valid.len_le);
      fits = fits;
      holds = valid.lawful.realloc_size _ _ _ _ _ _ _ e;
    };
    same = slots-Keeps v p valid (
        valid.lawful.realloc_keeps v.block _ _ _ _ _ p _ (Holds-SizeOf _ v.block valid.holds)
          (le_refl _) (grind arith) e);
    same_len = refl;
    same_size = refl;
    room = λ _. omega arith;
    kept = λ ne. absurd (ne refl);
  }

  -- d4np_vector_reserve on a valid vector keeps it valid and keeps its elements, gives the room
  -- that was asked for when it succeeds, and changes nothing when it fails.
  pub reserve-Reserved :
      (v : Vector S) (n : ℕ) (s : S) → IsValid libc v → Reserved v n (reserve_live libc v n s)
  unfolding reserve_live
  reserve-Reserved v n s valid = elim (Bool-cases (leb n v.capacity)) [
    | inl enough ↦ rw enough (Reserved-unchanged v n ok s valid (λ _. leb→le _ _ enough))
    | inr more ↦ rw more (elim (Bool-cases (ltb (size_max / v.elem_size) n)) [
      | inl big ↦ rw big (Reserved-unchanged v n overflow s valid (cc))
      | inr small ↦
          let fits : n * v.elem_size < size_mod =
            mul-lt_of_le_div n v.elem_size valid.elem_pos (ground arith) in
          rw
            (
              small,
              mul_size_exact v.capacity v.elem_size valid.fits,
              mul_size_exact n v.elem_size fits,
            )
            (grow_to-Reserved v n s _ valid (ground arith) fits refl)
    ])
  ]
