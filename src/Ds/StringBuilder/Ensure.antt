-- ===== src/Ds/StringBuilder/Ensure.antt =====
-- sb_ensure, the growth of a builder's block.
use egl_utils_c.Base.{
  ℕ, zero, suc, ◌+◌, ◌*◌, ◌/◌, ◌^◌, ◌≤◌, ◌<◌, ◌≡◌, refl, sym, subst, ap, ◌∙◌, arith, Option, none,
  some, Bytes, length, take, drop, take-drop-take, size_mod, size_max, mul_size_exact, Bool-cases,
  inl, inr, ◌⊎◌, leb, ltb, leb→le, ◌==◌, false, bytes_of,
}
use native.Mathlib.Nat.{le_refl, two-pow-succ}
use egl_utils_c.Core.Status.{Status, ok, out_of_memory}
use egl_utils_c.Core.Allocator.{Libc, IsAllocator, or_default, realloc, Keeps, SizeOf}
use egl_utils_c.Ds.StringBuilder.{Builder, min_capacity, grow, grow_to, ensure}

double_mul : (n p : ℕ) → n * (p + p) ≡ n * 2 * p
double_mul n p = grind arith

-- The loop ends with a size that is large enough, at least the old one, and below 2^64.
grow-some :
    (fuel newcap needed : ℕ)
    → 2 ^ 64 ≤ newcap * 2 ^ fuel
    → newcap < size_mod
    → needed < size_mod
    → (n : ℕ) × (grow (suc fuel) newcap needed ≡ some n)
      × (needed ≤ n)
      × (newcap ≤ n)
      × (n < size_mod)
unfolding grow
grow-some zero newcap needed enough small need = absurd (omega arith)
grow-some (suc fuel) newcap needed enough small need = elim (Bool-cases (ltb newcap needed)) [
  | inr fits ↦ rw fits (newcap, refl, ground arith, omega arith, small)
  | inl short ↦
      let less : newcap < needed = ground arith in
      rw short (elim (Bool-cases (ltb (size_max / 2) newcap)) [
        | inl big ↦ rw big (needed, refl, omega arith, omega arith, need)
        | inr half ↦
            let twice : newcap * 2 < size_mod = ground arith in
            let power : 2 ^ 64 ≤ newcap * 2 * 2 ^ fuel =
              subst (λ t. 2 ^ 64 ≤ t)
                (ap (λ (p : ℕ). newcap * p) (two-pow-succ fuel) ∙ double_mul newcap (2 ^ fuel))
                enough in
            let (n, e, le, up, lt) = grow-some fuel (newcap * 2) needed power twice need in
            rw (half, mul_size_exact newcap 2 twice) (n, e, le, omega arith, lt)
      ])
]

-- A builder with a lawful allocator, whose block has the size it names and holds its bytes.
pub record IsOpen {S : Type 0} (libc : Libc S) (sb : Builder S) : Type 0 where
  pub lawful : IsAllocator libc.address (or_default libc sb.allocator)
  pub block : length (bytes_of sb.data_ptr) ≡ sb.capacity
  pub len_le : sb.len ≤ sb.capacity
  pub capacity_lt : sb.capacity < size_mod

less_le : (a b : ℕ) → a < b → a ≤ b
less_le a b h = omega arith

not_leb→lt : (a b : ℕ) → leb a b ≡ false → b < a
not_leb→lt a b h = ground arith

module _ {S : Type 0} (libc : Libc S) where
  -- What sb_ensure leaves behind when it succeeds: the room, and what was in the block.
  pub record Roomy (sb : Builder S) (needed : ℕ) (sb' : Builder S) : Type 0 where
    pub shape : IsOpen libc sb'
    pub room : needed ≤ sb'.capacity
    pub grown : (sb' ≡ sb) ⊎ (sb.capacity < sb'.capacity)
    pub same_len : sb'.len ≡ sb.len
    pub keeps :
        (k off : ℕ)
        → off + k ≤ sb.capacity
        → take k (drop off (bytes_of sb'.data_ptr)) ≡ take k (drop off (bytes_of sb.data_ptr))

  -- It succeeds, or runs out of memory and changes nothing.
  abbrev pub Ensured : Builder S → ℕ → Option (Status × Builder S × S) → Type 0
  Ensured sb needed r =
      (st : Status) × (sb' : Builder S) × (s' : S) × (r ≡ some (st, sb', s'))
      × (((st ≡ ok) × Roomy sb needed sb') ⊎ ((st ≡ out_of_memory) × (sb' ≡ sb)))

  SizeOf-bytes_of : (n : ℕ) (o : Option Bytes) → length (bytes_of o) ≡ n → SizeOf o n
  SizeOf-bytes_of n none h = tt
  SizeOf-bytes_of n (some b) h = h

  Keeps-window :
      (m k off : ℕ) (o : Option Bytes) (c : Bytes)
      → length (bytes_of o) ≡ m
      → off + k ≤ m
      → Keeps o m c
      → take k (drop off c) ≡ take k (drop off (bytes_of o))
  Keeps-window m k off (some b) c len h e =
      sym (take-drop-take k off m c h)
      ∙ ap (λ t. take k (drop off t)) e
      ∙ take-drop-take k off m b h
  Keeps-window m zero off none c len h e = refl
  Keeps-window m (suc k) off none c len h e = absurd (omega arith)

  grow_to-Ensured :
      (sb : Builder S) (needed newcap : ℕ) (s : S) (r : Option Bytes × S)
      → IsOpen libc sb
      → sb.capacity < newcap
      → needed ≤ newcap
      → newcap < size_mod
      → realloc libc sb.allocator sb.data_ptr sb.capacity newcap 1 s ≡ r
      → Ensured sb needed (some (grow_to libc sb newcap r))
  unfolding grow_to realloc
  grow_to-Ensured sb needed newcap s (none, s') v up room lt e = (_, _, _, refl, inr (refl, refl))
  grow_to-Ensured sb needed newcap s (some p, s') v up room lt e = (
    _,
    _,
    _,
    refl,
    inl (
      refl,
      record {
        shape = record {
          lawful = v.lawful;
          block = v.lawful.realloc_size _ _ _ _ _ _ _ e;
          len_le = omega (arith, v.len_le);
          capacity_lt = lt;
        };
        room = room;
        grown = inr up;
        same_len = refl;
        keeps = λ k off h. Keeps-window sb.capacity k off sb.data_ptr p v.block h (
            v.lawful.realloc_keeps sb.data_ptr _ _ _ _ _ p _ (SizeOf-bytes_of _ sb.data_ptr v.block)
              (le_refl _) (less_le _ _ up) e);
      },
    ),
  )

  pub ensure-Ensured :
      (sb : Builder S) (needed : ℕ) (s : S)
      → IsOpen libc sb
      → needed < size_mod
      → Ensured sb needed (ensure libc sb needed s)
  unfolding ensure
  ensure-Ensured sb needed s v lt = elim (Bool-cases (leb needed sb.capacity)) [
    | inl enough ↦ rw enough (
      _,
      _,
      _,
      refl,
      inl (
        refl,
        record {
          shape = v;
          room = leb→le _ _ enough;
          grown = inl refl;
          same_len = refl;
          keeps = λ k off h. refl;
        },
      ),
    )
    | inr more ↦ rw more (elim (Bool-cases (sb.capacity == 0)) [
      | inl empty ↦
          let (n, e, le, up, small) =
            grow-some 64 min_capacity needed (omega arith) (omega arith) lt in
          rw (empty, e)
            (grow_to-Ensured sb needed n s _ v (omega (arith, not_leb→lt _ _ more)) le small refl)
      | inr full ↦
          let pos : 0 < sb.capacity = ground arith in
          let (n, e, le, up, small) =
            grow-some 64 sb.capacity needed (omega arith) v.capacity_lt lt in
          rw (full, e)
            (grow_to-Ensured sb needed n s _ v (omega (arith, not_leb→lt _ _ more)) le small refl)
    ])
  ]
