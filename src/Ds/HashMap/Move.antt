-- ===== src/Ds/HashMap/Move.antt =====
-- The loop of `resize` that puts the old entries into the new blocks.
use native.Mathlib.Nat.{mod-lt}
use egl_utils_c.Base.{
  ℕ, zero, suc, ◌+◌, ◌*◌, ◌%◌, ◌≤◌, ◌<◌, ◌≡◌, ◌≢◌, refl, sym, ap, ap₂, subst, ◌∙◌, arith, true,
  false, some, Bytes, length, drop, length-take, length-drop, ◌==◌, Bool-cases, inl, inr, ◌⊎◌,
  add_size, sub_size, bit_and, bytes_of, next_slot-le,
}
use egl_utils_c.Ds.HashMap.State.{HashMap}
use egl_utils_c.Ds.HashMap.Probe.{place_from, place, reinsert, start_of}
use egl_utils_c.Ds.HashMap.Slots.{
  IsSized, state, key_at, value_at, filled, control_at-state, key_bytes-key_at,
  value_bytes-value_at, occupy-filled, filled-IsSized,
}
use egl_utils_c.Ds.HashMap.Count.{count, one_if, count_change, empty_slot}
use egl_utils_c.Ds.HashMap.Table.{table, IsKeyEq, IsTable, Lacks, Reaches, pos, pos_all}
use egl_utils_c.Ds.HashMap.Update.{same_or, fill-IsTable}
use egl_utils_c.Ds.HashMap.Change.{filled-Changes}
use egl_utils_c.Ds.HashMap.Locate.{IsMasked, mask-mod, probe-pos}

-- The fields that `resize` does not touch.
pub record Frame {S : Type 0} (old m : HashMap S) : Type 0 where
  pub same_allocator : m.allocator ≡ old.allocator
  pub same_key_size : m.key_size ≡ old.key_size
  pub same_value_size : m.value_size ≡ old.value_size
  pub same_key_stride : m.key_stride ≡ old.key_stride
  pub same_value_stride : m.value_stride ≡ old.value_stride
  pub same_hash : m.hash ≡ old.hash
  pub same_key_eq : m.key_eq ≡ old.key_eq
  pub same_len : m.len ≡ old.len

-- The new map after the old slots below `i`: it has their entries and no others, and nothing is
-- deleted in it.
pub record Moved {S : Type 0} (old : HashMap S) (size tombs i : ℕ) (m : HashMap S) : Type 0 where
  pub frame : Frame old m
  pub same_size : m.capacity ≡ size
  pub same_tombs : m.tombstones ≡ tombs
  pub sized : IsSized m
  pub entries : IsTable old.hash old.key_eq (table m)
  pub ones : count 1 (state m) m.capacity ≡ count 1 (state old) i
  pub twos : count 2 (state m) m.capacity ≡ 0
  pub from :
      (j : ℕ)
      → j < m.capacity
      → state m j ≡ 1
      → (x : ℕ) × (x < i)
        × (state old x ≡ 1)
        × (key_at m j ≡ key_at old x)
        × (value_at m j ≡ value_at old x)
  pub has :
      (x : ℕ)
      → x < i
      → state old x ≡ 1
      → (j : ℕ) × (j < m.capacity)
        × (state m j ≡ 1)
        × (key_at m j ≡ key_at old x)
        × (value_at m j ≡ value_at old x)

count-le : (x : ℕ) (f : ℕ → ℕ) (n : ℕ) → count x f n ≤ n
unfolding count
count-le x f zero = omega arith
count-le x f (suc n) = elim (Bool-cases (f n == x)) [
  | inl hit ↦ let one : one_if (f n == x) ≡ 1 = ap one_if hit in omega (arith, count-le x f n)
  | inr miss ↦
      let none_here : one_if (f n == x) ≡ 0 = ap one_if miss in omega (arith, count-le x f n)
]

pub length-key_at :
    {S : Type 0} (m : HashMap S) (i : ℕ)
    → IsSized m
    → i < m.capacity
    → length (key_at m i) ≡ m.key_size
length-key_at m i sized lt = omega (
  arith,
  length-take m.key_size (drop (i * m.key_stride) (bytes_of m.keys)),
  length-drop (i * m.key_stride) (bytes_of m.keys),
  next_slot-le m.key_stride i m.capacity lt,
  sized.keys_len,
  sized.key_fits,
)

pub length-value_at :
    {S : Type 0} (m : HashMap S) (i : ℕ)
    → IsSized m
    → i < m.capacity
    → length (value_at m i) ≡ m.value_size
length-value_at m i sized lt = omega (
  arith,
  length-take m.value_size (drop (i * m.value_stride) (bytes_of m.values)),
  length-drop (i * m.value_stride) (bytes_of m.values),
  next_slot-le m.value_stride i m.capacity lt,
  sized.values_len,
  sized.value_fits,
)

module _ {S : Type 0} (old : HashMap S) (old_sized : IsSized old)
    (ops : IsKeyEq old.hash old.key_eq) (old_entries : IsTable old.hash old.key_eq (table old))
    (size tombs : ℕ) (masked : IsMasked size) (more : old.capacity < size) where
  -- The first empty slot on the path of the key takes the entry.
  place_from-filled :
      (m : HashMap S) (i n p e : ℕ)
      → Moved old size tombs i m
      → i < old.capacity
      → state old i ≡ 1
      → p + n ≡ size
      → ((x : ℕ) → x < p → state m (pos size (old.hash (key_at old i) % size) x) ≢ 0)
      → e < size
      → state m e ≡ 0
      → (j : ℕ) × (place_from old m i (key_at old i) (old.hash (key_at old i) % size) n p
          ≡ some (filled m j (key_at old i) (value_at old i)))
        × (j < size)
        × (state m j ≡ 0)
        × Reaches
            (record { size = size; st = state m; key = key_at m; val = value_at m })
            (old.hash (key_at old i) % size)
            j
  unfolding place_from
  place_from-filled m i zero p e moved lt one sum full e_lt empty =
      let (x, x_lt, there) =
        pos_all size (old.hash (key_at old i) % size) e
          (mod-lt (old.hash (key_at old i)) masked.positive) e_lt in
      absurd (full x (omega arith) (ap (state m) there ∙ empty))
  place_from-filled m i (suc n) p e moved lt one sum full e_lt empty =
      let s = old.hash (key_at old i) % size in
      let s_lt : s < size = mod-lt (old.hash (key_at old i)) masked.positive in
      let j_lt : pos size s p < size = mod-lt (s + p) masked.positive in
      let here : bit_and (add_size s p) (sub_size m.capacity 1) ≡ pos size s p =
        ap (λ c. bit_and (add_size s p) (sub_size c 1)) moved.same_size
        ∙ probe-pos size s p masked s_lt (omega arith) in
      let j_in : pos size s p < m.capacity = omega (arith, moved.same_size, j_lt) in
      rw (here, control_at-state m moved.sized (pos size s p) j_in)
        (elim (Bool-cases (state m (pos size s p) == 0)) [
          | inl zero_state ↦
              let at_zero : state m (pos size s p) ≡ 0 = ground arith in
              rw
                (
                  zero_state,
                  value_bytes-value_at old old_sized i lt,
                  occupy-filled m moved.sized (pos size s p) j_in (key_at old i) (value_at old i)
                      (length-key_at old i old_sized lt ∙ sym moved.frame.same_key_size)
                      (length-value_at old i old_sized lt ∙ sym moved.frame.same_value_size),
                )
                (
                  pos size s p,
                  refl,
                  j_lt,
                  at_zero,
                  record { steps = p; steps_lt = omega arith; there = refl; full = full },
                )
          | inr occupied ↦
              let nonzero : state m (pos size s p) ≢ 0 = ground arith in
              rw occupied (
                place_from-filled m i n (p + 1) e moved lt one (omega arith)
                  (λ x x_lt z. elim (order x p x_lt) [
                    | inl below ↦ full x below z
                    | inr last ↦ nonzero (ap (λ y. state m (pos size s y)) (sym last) ∙ z)
                  ])
                  e_lt empty)
        ])
    where
      order : (x p : ℕ) → x < p + 1 → (x < p) ⊎ (x ≡ p)
      order x p lt = omega arith

  -- The loop of one entry, as `place` calls it.
  place-place_from :
      (m : HashMap S) (i : ℕ)
      → Moved old size tombs i m
      → i < old.capacity
      → place old m i ≡ place_from old m i (key_at old i) (old.hash (key_at old i) % size) size 0
  unfolding place
  place-place_from m i moved lt =
      let k = key_at old i in
      let at_start : start_of m k ≡ old.hash k % size =
        ap (λ (h : Bytes → ℕ). bit_and (h k) (sub_size m.capacity 1)) moved.frame.same_hash
        ∙ ap (λ c. bit_and (old.hash k) (sub_size c 1)) moved.same_size
        ∙ mask-mod (old.hash k) size masked in
      rw (key_bytes-key_at old old_sized i lt)
        (ap₂ (λ st n. place_from old m i k st n 0) at_start moved.same_size)

  -- The new map has no key equal to the next one.
  next-Lacks :
      (m : HashMap S) (i : ℕ)
      → Moved old size tombs i m
      → i < old.capacity
      → state old i ≡ 1
      → Lacks old.key_eq (table m) (key_at old i)
  next-Lacks m i moved lt one j j_lt at_one =
      let (x, x_lt, x_one, same_key, _) = moved.from j j_lt at_one in
      elim (Bool-cases (old.key_eq (key_at m j) (key_at old i))) [
        | inr differs ↦ differs
        | inl eq ↦
            let twin : old.key_eq (key_at old x) (key_at old i) ≡ true =
              subst (λ k. old.key_eq k (key_at old i) ≡ true) same_key eq in
            let same : x ≡ i = old_entries.unique x i (omega arith) lt x_one one twin in
            absurd (omega arith)
      ]

  filled-Moved :
      (m : HashMap S) (i p : ℕ)
      → Moved old size tombs i m
      → i < old.capacity
      → state old i ≡ 1
      → p < m.capacity
      → state m p ≡ 0
      → Reaches (table m) (old.hash (key_at old i) % m.capacity) p
      → Moved old size tombs (suc i) (filled m p (key_at old i) (value_at old i))
  unfolding count
  filled-Moved m i p moved lt one p_lt empty reach =
      let k = key_at old i in
      let x = value_at old i in
      let c =
        filled-Changes old.hash old.key_eq m moved.sized p p_lt k x
          (length-key_at old i old_sized lt ∙ sym moved.frame.same_key_size)
          (length-value_at old i old_sized lt ∙ sym moved.frame.same_value_size) in
      let ones = count_change 1 (state m) (state (filled m p k x)) m.capacity p p_lt c.st_ne in
      let twos = count_change 2 (state m) (state (filled m p k x)) m.capacity p p_lt c.st_ne in
      let was_one : one_if (state m p == 1) ≡ 0 = ap (λ s. one_if (s == 1)) empty in
      let was_two : one_if (state m p == 2) ≡ 0 = ap (λ s. one_if (s == 2)) empty in
      let now_one : one_if (state (filled m p k x) p == 1) ≡ 1 =
        ap (λ s. one_if (s == 1)) c.st_self in
      let now_two : one_if (state (filled m p k x) p == 2) ≡ 0 =
        ap (λ s. one_if (s == 2)) c.st_self in
      let old_one : one_if (state old i == 1) ≡ 1 = ap (λ s. one_if (s == 1)) one in
      record {
        frame = record {
          same_allocator = moved.frame.same_allocator;
          same_key_size = moved.frame.same_key_size;
          same_value_size = moved.frame.same_value_size;
          same_key_stride = moved.frame.same_key_stride;
          same_value_stride = moved.frame.same_value_stride;
          same_hash = moved.frame.same_hash;
          same_key_eq = moved.frame.same_key_eq;
          same_len = moved.frame.same_len;
        };
        same_size = moved.same_size;
        same_tombs = moved.same_tombs;
        sized = filled-IsSized m moved.sized p p_lt k x;
        entries =
            fill-IsTable old.hash old.key_eq m.capacity (state m) (state (filled m p k x))
              (key_at m) (key_at (filled m p k x)) (value_at m) (value_at (filled m p k x)) ops
              moved.entries p k x
              (record {
                inside = p_lt;
                vacant = λ z. absurd (omega arith);
                lacks = next-Lacks m i moved lt one;
                reached = reach;
              })
              c;
        ones = omega (arith, ones, was_one, now_one, old_one, moved.ones);
        twos = omega (arith, twos, was_two, now_two, moved.twos);
        from = λ j j_lt at_one. elim (same_or p j) [
          | inl same ↦ (
            i,
            omega arith,
            one,
            ap (key_at (filled m p k x)) same ∙ c.key_self,
            ap (value_at (filled m p k x)) same ∙ c.val_self,
          )
          | inr ne ↦
              let (y, y_lt, y_one, ek, ev) = moved.from j j_lt (sym (c.st_ne j ne) ∙ at_one) in
              (y, omega arith, y_one, c.key_ne j ne ∙ ek, c.val_ne j ne ∙ ev)
        ];
        has = λ y y_lt y_one. elim (order y i y_lt) [
          | inl below ↦
              let (j, j_lt, at_one, ek, ev) = moved.has y below y_one in
              let ne : j ≢ p = λ same. absurd (let z = ap (state m) same in omega arith) in
              (j, j_lt, c.st_ne j ne ∙ at_one, c.key_ne j ne ∙ ek, c.val_ne j ne ∙ ev)
          | inr last ↦ (
            p,
            p_lt,
            c.st_self,
            c.key_self ∙ ap (key_at old) (sym last),
            c.val_self ∙ ap (value_at old) (sym last),
          )
        ];
      }
    where
      order : (y i : ℕ) → y < suc i → (y < i) ⊎ (y ≡ i)
      order y i lt = omega arith

  -- The entry of an occupied slot is placed.
  pub place-Moved :
      (m : HashMap S) (i : ℕ)
      → Moved old size tombs i m
      → i < old.capacity
      → state old i ≡ 1
      → (m' : HashMap S) × (place old m i ≡ some m') × Moved old size tombs (suc i) m'
  place-Moved m i moved lt one =
      let some_empty : count 1 (state m) m.capacity + count 2 (state m) m.capacity < m.capacity =
        omega (arith, moved.ones, moved.twos, moved.same_size, count-le 1 (state old) i) in
      let (e, e_lt, empty) = empty_slot (state m) m.capacity moved.entries.states some_empty in
      let (p, done, p_lt, p_empty, reach) =
        place_from-filled m i size 0 e moved lt one (omega arith) (λ x x_lt. absurd (omega arith))
          (omega (arith, moved.same_size, e_lt)) empty in
      (
        filled m p (key_at old i) (value_at old i),
        place-place_from m i moved lt ∙ done,
        filled-Moved m i p moved lt one (omega (arith, moved.same_size, p_lt)) p_empty (
            subst
              (λ n.
                Reaches (record { size = n; st = state m; key = key_at m; val = value_at m })
                  (old.hash (key_at old i) % n) p)
              (sym moved.same_size) reach),
      )

  skip-Moved :
      (m : HashMap S) (i : ℕ)
      → Moved old size tombs i m
      → (state old i == 1) ≡ false
      → Moved old size tombs (suc i) m
  unfolding count
  skip-Moved m i moved other =
      let none_here : one_if (state old i == 1) ≡ 0 = ap one_if other in
      record {
        frame = moved.frame;
        same_size = moved.same_size;
        same_tombs = moved.same_tombs;
        sized = moved.sized;
        entries = moved.entries;
        ones = omega (arith, none_here, moved.ones);
        twos = moved.twos;
        from = λ j j_lt at_one.
            let (x, x_lt, rest, ek, ev) = moved.from j j_lt at_one in
            (x, omega arith, rest, ek, ev);
        has = λ x x_lt x_one. elim (order x x_lt) [
          | inl below ↦ moved.has x below x_one
          | inr last ↦
              let hit : (state old i == 1) ≡ true =
                ap (λ y. state old y == 1) (sym last) ∙ ap (λ s. s == 1) x_one in
              absurd (cc)
        ];
      }
    where
      order : (x : ℕ) → x < suc i → (x < i) ⊎ (x ≡ i)
      order x lt = omega arith

  -- The loop over the old slots moves every entry.
  pub reinsert-Moved :
      (n i : ℕ) (m : HashMap S)
      → i + n ≡ old.capacity
      → Moved old size tombs i m
      → (m' : HashMap S) × (reinsert old n i m ≡ some m') × Moved old size tombs old.capacity m'
  unfolding reinsert
  reinsert-Moved zero i m sum moved =
      let all : i ≡ old.capacity = omega arith in
      (m, refl, subst (λ k. Moved old size tombs k m) all moved)
  reinsert-Moved (suc n) i m sum moved =
      let lt : i < old.capacity = omega arith in
      let up : suc i ≡ i + 1 = omega arith in
      let read = control_at-state old old_sized i lt in
      elim (Bool-cases (state old i == 1)) [
        | inl hit ↦
            let one : state old i ≡ 1 = ground arith in
            let (m', done, moved') = place-Moved m i moved lt one in
            let next =
              reinsert-Moved n (i + 1) m' (omega arith)
                (subst (λ k. Moved old size tombs k m') up moved') in
            (next.0, rw (read, hit, done) next.1, next.2)
        | inr other ↦
            let next =
              reinsert-Moved n (i + 1) m (omega arith)
                (subst (λ k. Moved old size tombs k m) up (skip-Moved m i moved other)) in
            (next.0, rw (read, other) next.1, next.2)
      ]
