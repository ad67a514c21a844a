-- ===== src/Ds/HashMap/Locate.antt =====
-- `locate` finds the slot of a key, or a free slot on its path.
use native.Mathlib.Nat.{mod-lt}
use egl_utils_c.Base.{
  ℕ, zero, suc, ◌+◌, ◌-◌, ◌%◌, ◌^◌, ◌<◌, ◌≡◌, ◌≢◌, refl, sym, ap, subst, ◌∙◌, arith, Bool, true,
  false, Option, some, Bytes, ◌==◌, ◌&&◌, if◌then◌else◌, Bool-cases, inl, inr, ◌⊎◌, size_max,
  add_size, sub_size, bit_and, bit_and-low_mask,
}
use egl_utils_c.Ds.HashMap.State.{HashMap}
use egl_utils_c.Ds.HashMap.Probe.{pick, holds_key, locate_from, start_of, locate}
use egl_utils_c.Ds.HashMap.Slots.{IsSized, state, key_at, control_at-state, key_bytes-key_at}
use egl_utils_c.Ds.HashMap.Table.{
  Table, table, IsKeyEq, IsTable, Lacks, Hit, Miss, Reaches, pos, pos_all,
}

-- The capacity is a power of two below 2^63, so the mask takes the remainder.
pub record IsMasked (capacity : ℕ) : Type 0 where
  pub bits : ℕ
  pub pow : capacity ≡ 2 ^ bits
  pub small : capacity < 2 ^ 63
  pub positive : 0 < capacity

pub mask-mod : (a capacity : ℕ) → IsMasked capacity → bit_and a (sub_size capacity 1) ≡ a % capacity
mask-mod a capacity m =
    let less : sub_size capacity 1 ≡ capacity - 1 = omega (arith, m.small, m.positive) in
    ap (bit_and a) less
    ∙ ap (λ c. bit_and a (c - 1)) m.pow
    ∙ bit_and-low_mask a m.bits
    ∙ ap (λ c. a % c) (sym m.pow)

pub probe-pos :
    (capacity start p : ℕ)
    → IsMasked capacity
    → start < capacity
    → p < capacity
    → bit_and (add_size start p) (sub_size capacity 1) ≡ pos capacity start p
probe-pos capacity start p m hs hp =
    let exact : add_size start p ≡ start + p = omega (arith, m.small) in
    ap (λ a. bit_and a (sub_size capacity 1)) exact ∙ mask-mod (start + p) capacity m

abbrev pub Located :
    (Bytes → ℕ) → (Bytes → Bytes → Bool) → Table → Bytes → Option (ℕ × Bool) → Type 0
Located hash key_eq t q r =
    (i : ℕ) × (((r ≡ some (i, true)) × Hit key_eq t q i)
      ⊎ ((r ≡ some (i, false)) × Miss hash key_eq t q i))

module _ {S : Type 0} (m : HashMap S) (q : Bytes) (sized : IsSized m) (masked : IsMasked m.capacity)
    (ops : IsKeyEq m.hash m.key_eq) (valid : IsTable m.hash m.key_eq (table m)) where
  abbrev start : ℕ
  start = m.hash q % m.capacity

  abbrev path : ℕ → ℕ
  path p = pos m.capacity start p

  -- The slots seen so far are neither empty nor the key's, and the tombstone is the first of them.
  record Seen (p first_tomb : ℕ) : Type 0 where
    full : (x : ℕ) → x < p → state m (path x) ≢ 0
    other : (x : ℕ) → x < p → state m (path x) ≡ 1 → m.key_eq (key_at m (path x)) q ≡ false
    tomb :
        (first_tomb ≡ size_max)
        ⊎ ((x : ℕ) × (x < p) × (first_tomb ≡ path x) × (state m (path x) ≡ 2))

  start_lt : start < m.capacity
  start_lt = mod-lt (m.hash q) masked.positive

  path_lt : (p : ℕ) → path p < m.capacity
  path_lt p = mod-lt (start + p) masked.positive

  -- At an empty slot on its path the key is known to be absent.
  absent :
      (p first_tomb : ℕ)
      → p < m.capacity
      → Seen p first_tomb
      → state m (path p) ≡ 0
      → Lacks m.key_eq (table m) q
  absent p first_tomb lt seen empty j j_lt one = elim (Bool-cases (m.key_eq (key_at m j) q)) [
    | inr differs ↦ differs
    | inl eq ↦ absurd (found eq)
  ]
    where
      reach : m.key_eq (key_at m j) q ≡ true → Reaches (table m) start j
      reach eq =
          subst (λ h. Reaches (table m) (h % m.capacity) j) (ops.hash_congr (key_at m j) q eq)
            (valid.chain j j_lt one)

      order : (x : ℕ) → (p < x) ⊎ ((x < p) ⊎ (x ≡ p))
      order x = omega arith

      found : m.key_eq (key_at m j) q ≡ true → ⊥
      found eq = elim (order (reach eq).steps) [
        | inl after ↦ (reach eq).full p after empty
        | inr (inl before) ↦
            let here : state m (path (reach eq).steps) ≡ 1 = ap (state m) (reach eq).there ∙ one in
            let differs : m.key_eq (key_at m j) q ≡ false =
              subst (λ x. m.key_eq (key_at m x) q ≡ false) (reach eq).there
                (seen.other _ before here) in
            absurd (cc)
        | inr (inr same) ↦
            let here : state m (path p) ≡ 1 =
              ap (λ x. state m (path x)) (sym same) ∙ ap (state m) (reach eq).there ∙ one in
            absurd (omega arith)
      ]

  empty-Miss :
      (p first_tomb : ℕ)
      → p < m.capacity
      → Seen p first_tomb
      → state m (path p) ≡ 0
      → Miss m.hash m.key_eq (table m) q (pick first_tomb (path p))
  empty-Miss p first_tomb lt seen empty = elim seen.tomb [
    | inl unset ↦
        let test : (first_tomb == size_max) ≡ true = ground arith in
        rw test (record {
          inside = path_lt p;
          vacant = λ one. absurd (omega arith);
          lacks = absent p first_tomb lt seen empty;
          reached = record { steps = p; steps_lt = lt; there = refl; full = seen.full };
        })
    | inr (x, x_lt, at_x, two) ↦
        let near : first_tomb < 2 ^ 63 = omega (arith, path_lt x, masked.small) in
        let test : (first_tomb == size_max) ≡ false = ground arith in
        rw (test, at_x)
          (record {
            inside = path_lt x;
            vacant = λ one. absurd (omega arith);
            lacks = absent p first_tomb lt seen empty;
            reached = record {
              steps = x;
              steps_lt = omega arith;
              there = refl;
              full = λ y y_lt. seen.full y (omega arith);
            };
          })
  ]

  extend-Seen :
      (p first_tomb : ℕ)
      → Seen p first_tomb
      → state m (path p) ≢ 0
      → (state m (path p) ≡ 1 → m.key_eq (key_at m (path p)) q ≡ false)
      → Seen
          (p + 1)
          (if state m (path p) == 2 && first_tomb == size_max then path p else first_tomb)
  extend-Seen p first_tomb seen nonzero differs = record {
    full = λ x lt e. elim (order x lt) [
      | inl below ↦ seen.full x below e
      | inr last ↦ nonzero (ap (λ y. state m (path y)) (sym last) ∙ e)
    ];
    other = λ x lt one. elim (order x lt) [
      | inl below ↦ seen.other x below one
      | inr last ↦
          subst (λ y. m.key_eq (key_at m (path y)) q ≡ false) (sym last)
            (differs (ap (λ y. state m (path y)) (sym last) ∙ one))
    ];
    tomb = elim (Bool-cases (state m (path p) == 2 && first_tomb == size_max)) [
      | inl first ↦
          let two : state m (path p) ≡ 2 = ground arith in
          rw first (inr (p, omega arith, refl, two))
      | inr keep ↦ rw keep (elim seen.tomb [
        | inl unset ↦ inl unset
        | inr (x, x_lt, at_x, two) ↦ inr (x, omega arith, at_x, two)
      ])
    ];
  }
    where
      order : (x : ℕ) → x < p + 1 → (x < p) ⊎ (x ≡ p)
      order x lt = omega arith

  locate_from-Located :
      (n p first_tomb e : ℕ)
      → p + n ≡ m.capacity
      → Seen p first_tomb
      → e < m.capacity
      → state m e ≡ 0
      → Located m.hash m.key_eq (table m) q (locate_from m q start n p first_tomb)
  unfolding locate_from holds_key
  locate_from-Located zero p first_tomb e sum seen e_lt empty =
      let (x, x_lt, there) = pos_all m.capacity start e start_lt e_lt in
      absurd (seen.full x (omega arith) (ap (state m) there ∙ empty))
  locate_from-Located (suc n) p first_tomb e sum seen e_lt empty =
      let lt : p < m.capacity = omega arith in
      let here = probe-pos m.capacity start p masked start_lt lt in
      let read = control_at-state m sized (path p) (path_lt p) in
      rw (here, read)
        (elim (Bool-cases (state m (path p) == 0)) [
          | inl zero_state ↦
              let at_zero : state m (path p) ≡ 0 = ground arith in
              rw zero_state
                (pick first_tomb (path p), inr (refl, empty-Miss p first_tomb lt seen at_zero))
          | inr full ↦
              let nonzero : state m (path p) ≢ 0 = ground arith in
              rw full (elim (Bool-cases (state m (path p) == 1)) [
                | inr free ↦
                    let not_one : state m (path p) ≢ 1 = ground arith in
                    rw free (
                      locate_from-Located n (p + 1) _ e (omega arith)
                        (extend-Seen p first_tomb seen nonzero (λ one. absurd (not_one one))) e_lt
                        empty)
                | inl occupied ↦
                    let one : state m (path p) ≡ 1 = ground arith in
                    rw (occupied, key_bytes-key_at m sized (path p) (path_lt p))
                      (elim (Bool-cases (m.key_eq (key_at m (path p)) q)) [
                        | inl eq ↦ rw eq (path p, inl (refl, (path_lt p, one, eq)))
                        | inr differs ↦ rw differs (
                            locate_from-Located n (p + 1) _ e (omega arith)
                              (extend-Seen p first_tomb seen nonzero (λ _. differs)) e_lt empty)
                      ])
              ])
        ])

  -- `locate` on a valid map with an empty slot.
  pub locate-Located :
      (e : ℕ) → e < m.capacity → state m e ≡ 0 → Located m.hash m.key_eq (table m) q (locate m q)
  unfolding locate
  locate-Located e e_lt empty =
      let masked_start : start_of m q ≡ start = mask-mod (m.hash q) m.capacity masked in
      rw masked_start (
        locate_from-Located m.capacity 0 size_max e (omega arith)
          (record {
            full = λ x lt. absurd (omega arith);
            other = λ x lt. absurd (omega arith);
            tomb = inl refl;
          })
          e_lt empty)
