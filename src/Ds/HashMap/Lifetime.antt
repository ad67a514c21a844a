-- ===== src/Ds/HashMap/Lifetime.antt =====
-- d4np_hashmap_init and the default callbacks.
use egl_utils_c.Base.{
  round_16, ℕ, ◌-◌, ◌*◌, ◌/◌, ◌^◌, ◌≤◌, ◌<◌, ◌≡◌, ◌≢◌, refl, sym, ap, ap₂, subst, ◌∙◌, arith, Bool,
  true, false, ◌||◌, Option, none, some, Bytes, ◌==◌, ltb, Bool-cases, inl, inr, ◌⊎◌, size_max,
  IsLeastPow2, double_until-IsLeastPow2,
}
use native.Mathlib.Nat.{one-le-pow, div-add-mod}
use egl_utils_c.Core.Status.{Status, ok, invalid_argument}
use egl_utils_c.Core.Allocator.{Allocator, Libc, IsAllocator, or_default}
use egl_utils_c.Str.View.Equals.{same_bytes-Decides}
use egl_utils_c.Ds.HashMap.State.{
  HashMap, default_hash, default_key_eq, round_up, next_pow2_at_least,
}
use egl_utils_c.Ds.HashMap.Resize.{resize}
use egl_utils_c.Ds.HashMap.Methods.{init, or_hash, or_key_eq}
use egl_utils_c.Ds.HashMap.Slots.{IsSized, state}
use egl_utils_c.Ds.HashMap.Count.{count}
use egl_utils_c.Ds.HashMap.Table.{IsKeyEq}
use egl_utils_c.Ds.HashMap.Locate.{IsMasked}
use egl_utils_c.Ds.HashMap.Valid.{IsValid, find, find-zero}
use egl_utils_c.Ds.HashMap.Grow.{Resized, resize-Resized}

-- memcmp and FNV-1a are a comparison and a hash that agree.
pub default-IsKeyEq : IsKeyEq default_hash default_key_eq
unfolding default_key_eq
default-IsKeyEq = record {
  eq_refl = λ a. elim (same_bytes-Decides a a) [ inl (t, e) ↦ t | inr (f, ne) ↦ absurd (ne refl) ];
  eq_sym = λ a b h. elim (same_bytes-Decides a b) [
    | inl (t, e) ↦ ap₂ default_key_eq (sym e) e ∙ t
    | inr (f, ne) ↦ absurd (let clash : true ≡ false = sym h ∙ f in cc)
  ];
  eq_trans = λ a b c h k. elim (same_bytes-Decides b c) [
    | inl (t, e) ↦ ap (default_key_eq a) (sym e) ∙ h
    | inr (f, ne) ↦ absurd (let clash : true ≡ false = sym k ∙ f in cc)
  ];
  hash_congr = λ a b h. elim (same_bytes-Decides a b) [
    | inl (t, e) ↦ ap default_hash e
    | inr (f, ne) ↦ absurd (let clash : true ≡ false = sym h ∙ f in cc)
  ];
}

-- The stride of a size: the least multiple of 16 from it on.
pub round_up_16 :
    (size : ℕ)
    → 0 < size
    → size ≤ size_max - 15
    → (size ≤ round_up size 16) × (16 ≤ round_up size 16)
unfolding round_up
round_up_16 size pos le = (omega (arith, round_16 size le), omega (arith, round_16 size le))

-- The rounding loop ends, after 61 values at most.
map_pow2-IsLeastPow2 : (n : ℕ) → (c : ℕ) × (next_pow2_at_least n ≡ some c) × IsLeastPow2 3 n c
unfolding next_pow2_at_least
map_pow2-IsLeastPow2 n = double_until-IsLeastPow2 61 3 n (omega arith) (omega arith)

-- The loop gives up only above 2^60.
small_request : (n c : ℕ) → IsLeastPow2 3 n c → c < 2 ^ 60 → n ≤ 2 ^ 63
small_request n c p lt = elim order [
  | inl le ↦ le
  | inr gt ↦ absurd (omega (arith, p.saturated gt))
]
  where
    order : (n ≤ 2 ^ 63) ⊎ (2 ^ 63 < n)
    order = omega arith

div-lt_of_wide : (k : ℕ) → 16 ≤ k → size_max / k < 2 ^ 60
div-lt_of_wide k wide =
    let q = size_max / k in
    let below : q * 16 ≤ q * k = grind arith in
    let whole : q * k ≤ size_max = grind (arith, div-add-mod size_max k) in omega arith

module _ {S : Type 0} (libc : Libc S) where
  -- A map without entries.
  abbrev pub IsEmpty : HashMap S → Type 0
  IsEmpty m = IsValid libc m × (m.len ≡ 0) × ((q : Bytes) → find m q ≡ none)

  no_slots-IsValid :
      (m : HashMap S)
      → IsAllocator libc.address (or_default libc m.allocator)
      → IsKeyEq m.hash m.key_eq
      → IsSized m
      → m.capacity ≡ 0
      → m.len ≡ 0
      → m.tombstones ≡ 0
      → IsValid libc m
  unfolding count
  no_slots-IsValid m lawful ops sized no_slots no_len no_tombs = record {
    lawful = lawful;
    ops = ops;
    sized = sized;
    entries = record {
      states = λ j lt. absurd (omega arith);
      chain = λ j lt one. absurd (omega arith);
      unique = λ i j lt lt' one one' eq. absurd (omega arith);
    };
    len_count = no_len ∙ sym (ap (count 1 (state m)) no_slots);
    tomb_count = no_tombs ∙ sym (ap (count 2 (state m)) no_slots);
    room = inl no_slots;
  }

  -- More slots than the address space holds are refused.
  resize_overflow :
      (m : HashMap S) (n : ℕ) (s : S)
      → 16 ≤ m.key_stride
      → 2 ^ 60 ≤ n
      → (r : Status × HashMap S × S) × (resize libc m n s ≡ some r) × (r.0 ≢ ok) × (r.1 ≡ m)
  unfolding resize
  resize_overflow m n s wide big =
      let test : (m.key_stride == 0) ≡ false = ground arith in
      let few : size_max / m.key_stride < 2 ^ 60 = div-lt_of_wide m.key_stride wide in
      let over : ltb (size_max / m.key_stride) n ≡ true = ground arith in
      rw (test, over) (_, refl, (cc), refl)

  module _ (m : HashMap S) (v : IsValid libc m) (no_slots : m.capacity ≡ 0) (no_len : m.len ≡ 0)
      (initial n : ℕ) where
    -- What the first allocation of d4np_hashmap_init gives, on a map without slots.
    abbrev Made : Status × HashMap S × S → Type 0
    Made r = IsEmpty r.1 × (r.0 ≡ ok → initial ≤ r.1.capacity)

    failed-Made : (r : Status × HashMap S × S) → r.0 ≢ ok → r.1 ≡ m → Made r
    failed-Made r ne same = (
      subst IsEmpty (sym same) (v, no_len, λ q. find-zero libc m v q no_slots),
      λ e. absurd (ne e),
    )

    Resized-Made : (r : Status × HashMap S × S) → initial ≤ n → Resized libc m n r → Made r
    Resized-Made r le (inl (ne, same)) = failed-Made r ne same
    Resized-Made r le (inr (e, g)) = (
      (g.valid, g.frame.same_len ∙ no_len, λ q. g.finds q ∙ find-zero libc m v q no_slots),
      λ _. omega (arith, g.same_size, le),
    )

    first-Made :
        (s : S)
        → IsLeastPow2 3 initial n
        → (r : Status × HashMap S × S) × (resize libc m n s ≡ some r) × Made r
    first-Made s p = elim (Bool-cases (ltb n (2 ^ 60))) [
      | inr big ↦
          let (r, done, ne, same) = resize_overflow m n s v.sized.key_pos (ground arith) in
          (r, done, failed-Made r ne same)
      | inl small ↦
          let lt : n < 2 ^ 60 = ground arith in
          let positive : 0 < n = omega (arith, p.pow, one-le-pow p.bits 2) in
          let masked : IsMasked n = record {
            bits = p.bits;
            pow = p.pow;
            small = omega arith;
            positive = positive;
          } in
          let (r, done, resized) = resize-Resized libc m v n masked (omega arith) (omega arith) s in
          (r, done, Resized-Made r (p.enough (small_request initial n p lt)) resized)
    ]

  sized_init-IsEmpty :
      (storage : HashMap S) (allocator : Option (Allocator S)) (key_size value_size initial : ℕ)
      (hash : Option (Bytes → ℕ)) (key_eq : Option (Bytes → Bytes → Bool)) (s : S)
      → IsAllocator libc.address (or_default libc allocator)
      → IsKeyEq (or_hash hash) (or_key_eq key_eq)
      → 0 < key_size
      → key_size ≤ size_max - 15
      → 0 < value_size
      → value_size ≤ size_max - 15
      → (st : Status) × (m : HashMap S) × (s' : S) × (init libc
            (some storage)
            allocator
            key_size
            value_size
            initial
            hash
            key_eq
            s
          ≡ some (st, some m, s'))
        × IsEmpty m
        × (st ≡ ok → initial ≤ m.capacity)
  unfolding init
  sized_init-IsEmpty storage allocator key_size value_size initial hash key_eq s lawful ops kp kl vp
        vl =
      let no_key : (key_size == 0 || value_size == 0) ≡ false = ground arith in
      let (ka, kb) = round_up_16 key_size kp kl in
      let (va, vb) = round_up_16 value_size vp vl in
      let m : HashMap S = record {
        allocator = some (or_default libc allocator);
        control = none;
        keys = none;
        values = none;
        key_size = key_size;
        value_size = value_size;
        key_stride = round_up key_size 16;
        value_stride = round_up value_size 16;
        capacity = 0;
        len = 0;
        tombstones = 0;
        hash = or_hash hash;
        key_eq = or_key_eq key_eq;
      } in
      let sized : IsSized m = record {
        control_len = refl;
        keys_len = omega arith;
        values_len = omega arith;
        key_fits = ka;
        value_fits = va;
        key_pos = kb;
        value_pos = vb;
        keys_lt = omega arith;
        values_lt = omega arith;
      } in
      let v : IsValid libc m = no_slots-IsValid m lawful ops sized refl refl refl in
      rw no_key (elim (Bool-cases (ltb 0 initial)) [
        | inr nothing ↦
            rw nothing
              (ok, m, s, refl, (v, refl, λ q. find-zero libc m v q refl), λ e. ground arith)
        | inl more ↦
            let (cap, rounded, p) = map_pow2-IsLeastPow2 initial in
            let ((st, m', s'), done, made) = first-Made m v refl refl initial cap s p in
            rw (more, rounded, done) (st, m', s', refl, made.0, made.1)
      ])

  -- What d4np_hashmap_init leaves of `storage`: nothing changed where a size is 0; otherwise, whatever
  -- it reports, a valid empty map, with at least the slots asked for if it reports OK.
  abbrev pub Initialised : HashMap S → ℕ → ℕ → ℕ → Status × Option (HashMap S) × S → Type 0
  Initialised storage key_size value_size initial (st, pm, s) =
      (((key_size ≡ 0) ⊎ (value_size ≡ 0)) × (st ≡ invalid_argument) × (pm ≡ some storage))
      ⊎ ((m : HashMap S) × (0 < key_size)
          × (0 < value_size)
          × (pm ≡ some m)
          × IsEmpty m
          × (st ≡ ok → initial ≤ m.capacity))

  -- d4np_hashmap_init with a lawful allocator, callbacks that agree and sizes up to SIZE_MAX - 15
  -- (above that the rounding of the strides wraps) returns. A size of 0 is an invalid argument and
  -- leaves the object as it was; otherwise, whatever init reports, the object is a valid empty map,
  -- and on success it has at least the slots asked for, whatever number that is.
  pub map_init-IsEmpty :
      (storage : HashMap S) (allocator : Option (Allocator S)) (key_size value_size initial : ℕ)
      (hash : Option (Bytes → ℕ)) (key_eq : Option (Bytes → Bytes → Bool)) (s : S)
      → IsAllocator libc.address (or_default libc allocator)
      → IsKeyEq (or_hash hash) (or_key_eq key_eq)
      → key_size ≤ size_max - 15
      → value_size ≤ size_max - 15
      → (r : Status × Option (HashMap S) × S) × (init libc
            (some storage)
            allocator
            key_size
            value_size
            initial
            hash
            key_eq
            s
          ≡ some r)
        × Initialised storage key_size value_size initial r
  map_init-IsEmpty storage allocator key_size value_size initial hash key_eq s lawful ops kl vl =
      elim (Bool-cases (key_size == 0 || value_size == 0)) [
        | inl zero_size ↦
            unfold init in
            rw zero_size
              ((invalid_argument, some storage, s), refl, inl (which zero_size, refl, refl))
        | inr fine ↦
            let kp : 0 < key_size = ground arith in
            let vp : 0 < value_size = ground arith in
            let (st, m, s', done, empty, enough) =
              sized_init-IsEmpty storage allocator key_size value_size initial hash key_eq s lawful
                ops kp kl vp vl in
            ((st, some m, s'), done, inr (m, kp, vp, refl, empty, enough))
      ]
    where
      which : (key_size == 0 || value_size == 0) ≡ true → (key_size ≡ 0) ⊎ (value_size ≡ 0)
      which e = ground arith
