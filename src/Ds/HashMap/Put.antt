-- ===== src/Ds/HashMap/Put.antt =====
-- d4np_hashmap_put on a valid map: the growth step, then `locate` and the stores.
use native.Mathlib.Nat.{pow-suc}
use egl_utils_c.Base.{
  ℕ, suc, ◌+◌, ◌*◌, ◌^◌, ◌≤◌, ◌<◌, ◌≡◌, ◌≢◌, refl, sym, ap, subst, ◌∙◌, arith, Bool, true, false,
  Option, some, Bytes, length, take, length-take, ◌==◌, leb, if◌then◌else◌, Bool-cases, inl, inr,
  ◌⊎◌, mul_size, add_size,
}
use egl_utils_c.Core.Status.{Status, ok}
use egl_utils_c.Core.Allocator.{Libc}
use egl_utils_c.Ds.HashMap.State.{HashMap}
use egl_utils_c.Ds.HashMap.Methods.{grow, insert, put}
use egl_utils_c.Ds.HashMap.Slots.{IsSized, state}
use egl_utils_c.Ds.HashMap.Count.{count}
use egl_utils_c.Ds.HashMap.Locate.{IsMasked}
use egl_utils_c.Ds.HashMap.Valid.{IsValid, find, read_at-front, locate_valid}
use egl_utils_c.Ds.HashMap.Store.{store-Holds}
use egl_utils_c.Ds.HashMap.Grow.{Resized, resize-Resized}

-- The blocks of a valid map fit in the address space, so it has fewer than 2^60 slots.
capacity-lt : {S : Type 0} (m : HashMap S) → IsSized m → m.capacity < 2 ^ 60
capacity-lt m sized =
    let wide : m.capacity * 16 ≤ m.capacity * m.key_stride = grind (arith, sized.key_pos) in
    omega (arith, wide, sized.keys_lt)

eight-IsMasked : IsMasked 8
eight-IsMasked = record { bits = 3; pow = refl; small = omega arith; positive = omega arith }

double-IsMasked : (n : ℕ) → IsMasked n → n < 2 ^ 60 → IsMasked (n * 2)
double-IsMasked n m lt = record {
  bits = suc m.bits;
  pow = omega (arith, m.pow, pow-suc 2 m.bits);
  small = omega arith;
  positive = omega (arith, m.positive);
}

-- The map that the growth step hands on: with a free slot to spare, and the same values.
pub record Ready {S : Type 0} (libc : Libc S) (m m' : HashMap S) : Type 0 where
  pub valid : IsValid libc m'
  pub same_key_size : m'.key_size ≡ m.key_size
  pub same_value_size : m'.value_size ≡ m.value_size
  pub same_key_eq : m'.key_eq ≡ m.key_eq
  pub masked : IsMasked m'.capacity
  pub spare : m'.len + m'.tombstones + 1 < m'.capacity
  pub finds : (q : Bytes) → find m' q ≡ find m q

abbrev pub Grown : {S : Type 0} → Libc S → HashMap S → Status × HashMap S × S → Type 0
Grown libc m r = ((r.0 ≢ ok) × (r.1 ≡ m)) ⊎ ((r.0 ≡ ok) × Ready libc m r.1)

module _ {S : Type 0} (libc : Libc S) (m : HashMap S) (v : IsValid libc m) where
  Resized-Grown :
      (n : ℕ) (r : Status × HashMap S × S)
      → IsMasked n
      → m.len + 1 < n
      → Resized libc m n r
      → Grown libc m r
  Resized-Grown n r masked enough (inl failed) = inl failed
  Resized-Grown n r masked enough (inr (e, g)) = inr (
    e,
    record {
      valid = g.valid;
      same_key_size = g.frame.same_key_size;
      same_value_size = g.frame.same_value_size;
      same_key_eq = g.frame.same_key_eq;
      masked = subst IsMasked (sym g.same_size) masked;
      spare = omega (arith, g.no_tombs, g.same_size, g.frame.same_len);
      finds = g.finds;
    },
  )

  -- The growth step gives a map with a free slot to spare, or fails and leaves the map as it was.
  grow-Grown : (s : S) → (r : Status × HashMap S × S) × (grow libc m s ≡ some r) × Grown libc m r
  unfolding grow count
  grow-Grown s = elim v.room [
    | inl no_slots ↦
        let full : leb (mul_size m.capacity 3)
              (mul_size (add_size (add_size m.len m.tombstones) 1) 4)
            ≡ true =
          ground arith in
        let test : (m.capacity == 0) ≡ true = ground arith in
        let no_entries : m.len ≡ 0 = v.len_count ∙ ap (count 1 (state m)) no_slots in
        let (r, done, resized) =
          resize-Resized libc m v 8 eight-IsMasked (omega arith) (omega arith) s in
        rw (full, test) (r, done, Resized-Grown 8 r eight-IsMasked (omega arith) resized)
    | inr (masked, less) ↦
        let small = capacity-lt m v.sized in
        let test : (m.capacity == 0) ≡ false = ground (arith, masked.positive) in
        elim (Bool-cases
          (leb (mul_size m.capacity 3) (mul_size (add_size (add_size m.len m.tombstones) 1) 4))) [
            | inl full ↦
                let wide : mul_size m.capacity 2 ≡ m.capacity * 2 = omega arith in
                let twice = double-IsMasked m.capacity masked small in
                let (r, done, resized) =
                  resize-Resized libc m v (m.capacity * 2) twice (omega (arith, masked.positive))
                    (omega arith) s in
                rw (full, test, wide)
                  (r, done, Resized-Grown (m.capacity * 2) r twice (omega arith) resized)
            | inr light ↦ rw light (
              _,
              refl,
              inr (
                refl,
                record {
                  valid = v;
                  same_key_size = refl;
                  same_value_size = refl;
                  same_key_eq = refl;
                  masked = masked;
                  spare = ground (arith, small);
                  finds = λ q. refl;
                },
              ),
            )
          ]
  ]

  -- What a put gives: the map as it was with an error, or a valid map with the value for the key.
  abbrev pub Put : Bytes → Bytes → Status × Option (HashMap S) × S → Type 0
  Put k x r =
      ((r.0 ≢ ok) × (r.1 ≡ some m))
      ⊎ ((m' : HashMap S) × (r.0 ≡ ok)
          × (r.1 ≡ some m')
          × IsValid libc m'
          × ((q : Bytes) → find m' q ≡ (if m.key_eq k q then some x else find m q)))

  insert_error :
      (k x : Bytes) (st : Status) (m' : HashMap S) (s : S)
      → st ≢ ok
      → insert k x (st, m', s) ≡ some (st, some m', s)
  unfolding insert
  insert_error k x ok m' s ne = absurd (ne refl)
  insert_error k x st m' s ne = refl

  insert-Put :
      (k x : Bytes) (m1 : HashMap S) (s : S)
      → length k ≡ m.key_size
      → length x ≡ m.value_size
      → Ready libc m m1
      → (r : Status × Option (HashMap S) × S) × (insert k x (ok, m1, s) ≡ some r) × Put k x r
  unfolding insert
  insert-Put k x m1 s ek ex ready =
      let (i, found) =
        locate_valid libc m1 ready.valid k ready.masked (omega (arith, ready.spare)) in
      let stored =
        store-Holds libc m1 ready.valid k x (ek ∙ sym ready.same_key_size)
          (ex ∙ sym ready.same_value_size) ready.masked ready.spare in
      elim found [
        | inl (e, hit) ↦
            let (m', done, holds) = stored (i, true) (inl (refl, hit)) in
            rw (e, done) (_, refl, inr (m', refl, refl, holds.0, put_finds m' holds.1))
        | inr (e, miss) ↦
            let (m', done, holds) = stored (i, false) (inr (refl, miss)) in
            rw (e, done) (_, refl, inr (m', refl, refl, holds.0, put_finds m' holds.1))
      ]
    where
      put_finds :
          (m' : HashMap S)
          → ((q : Bytes) → find m' q ≡ (if m1.key_eq k q then some x else find m1 q))
          → (q : Bytes) → find m' q ≡ (if m.key_eq k q then some x else find m q)
      put_finds m' finds q =
          finds q
          ∙ ap (λ o. if m1.key_eq k q then some x else o) (ready.finds q)
          ∙ ap (λ (e : Bytes → Bytes → Bool). if e k q then some x else find m q) ready.same_key_eq

  Grown-Put :
      (k x : Bytes) (st : Status) (m1 : HashMap S) (s : S)
      → length k ≡ m.key_size
      → length x ≡ m.value_size
      → Grown libc m (st, m1, s)
      → (r : Status × Option (HashMap S) × S) × (insert k x (st, m1, s) ≡ some r) × Put k x r
  Grown-Put k x st m1 s ek ex (inl (ne, same)) =
      (_, insert_error k x st m1 s ne, inl (ne, ap some same))
  Grown-Put k x st m1 s ek ex (inr (e, ready)) =
      let (r, done, result) = insert-Put k x m1 s ek ex ready in
      (r, ap (λ (t : Status). insert k x (t, m1, s)) e ∙ done, result)

  -- d4np_hashmap_put on a valid map, with a key and a value of the sizes that the map was made for,
  -- returns and accesses nothing outside its blocks. On success the map is valid, has the value for
  -- the key and for every other key what it had; on failure it is the map as it was.
  pub put-Put :
      (key value : Bytes) (s : S)
      → m.key_size ≤ length key
      → m.value_size ≤ length value
      → (r : Status × Option (HashMap S) × S) × (put libc (some m) (some key) (some value) s
          ≡ some r)
        × Put (take m.key_size key) (take m.value_size value) r
  unfolding put
  put-Put key value s hk hx =
      let k_len : length (take m.key_size key) ≡ m.key_size =
        omega (arith, length-take m.key_size key) in
      let x_len : length (take m.value_size value) ≡ m.value_size =
        omega (arith, length-take m.value_size value) in
      let ((st, m1, s1), done, grown) = grow-Grown s in
      rw (done, read_at-front key m.key_size hk, read_at-front value m.value_size hx)
        (Grown-Put (take m.key_size key) (take m.value_size value) st m1 s1 k_len x_len grown)
