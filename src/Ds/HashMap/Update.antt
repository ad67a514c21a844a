-- ===== src/Ds/HashMap/Update.antt =====
-- What filling, deleting and revaluing one slot does to a table and to the search through it.
use egl_utils_c.Base.{
  ℕ, ◌%◌, ◌<◌, ◌≡◌, ◌≢◌, refl, sym, ap, subst, ◌∙◌, arith, Bool, true, false, Bytes, inl, inr, ◌⊎◌,
}
use egl_utils_c.Ds.HashMap.Count.{IsState}
use egl_utils_c.Ds.HashMap.Table.{Table, IsKeyEq, IsTable, Miss, Reaches, pos}

pub same_or : (i j : ℕ) → (j ≡ i) ⊎ (j ≢ i)
same_or i j = elim order [
  | inl lt ↦ inr (λ e. absurd (omega arith))
  | inr (inl gt) ↦ inr (λ e. absurd (omega arith))
  | inr (inr same) ↦ inl same
]
  where
    order : (j < i) ⊎ ((i < j) ⊎ (j ≡ i))
    order = omega arith

module _ (hash : Bytes → ℕ) (key_eq : Bytes → Bytes → Bool) (n : ℕ) (st st' : ℕ → ℕ)
    (key key' val val' : ℕ → Bytes) where
  abbrev before : Table
  before = record { size = n; st = st; key = key; val = val }

  abbrev after : Table
  after = record { size = n; st = st'; key = key'; val = val' }

  -- Paths stay where no slot becomes empty.
  Reaches-mono :
      (s j : ℕ) → ((x : ℕ) → st x ≢ 0 → st' x ≢ 0) → Reaches before s j → Reaches after s j
  Reaches-mono s j keeps r = record {
    steps = r.steps;
    steps_lt = r.steps_lt;
    there = r.there;
    full = λ q lt. keeps (pos n s q) (r.full q lt);
  }

  -- Slot `i` has the new state, key and value, and the other slots are as they were.
  pub record Changes (i s : ℕ) (k v : Bytes) : Type 0 where
    pub st_self : st' i ≡ s
    pub key_self : key' i ≡ k
    pub val_self : val' i ≡ v
    pub st_ne : (j : ℕ) → j ≢ i → st' j ≡ st j
    pub key_ne : (j : ℕ) → j ≢ i → key' j ≡ key j
    pub val_ne : (j : ℕ) → j ≢ i → val' j ≡ val j

  Changes-full : (i s : ℕ) (k v : Bytes) → Changes i s k v → s ≢ 0 → (x : ℕ) → st x ≢ 0 → st' x ≢ 0
  Changes-full i s k v c nonzero x full e = elim (same_or i x) [
    | inl same ↦ nonzero (sym c.st_self ∙ ap st' (sym same) ∙ e)
    | inr ne ↦ full (sym (c.st_ne x ne) ∙ e)
  ]

  Changes-states :
      (i s : ℕ) (k v : Bytes)
      → Changes i s k v
      → IsState s
      → ((j : ℕ) → j < n → IsState (st j))
      → (j : ℕ) → j < n
      → IsState (st' j)
  Changes-states i s k v c new old j lt = elim (same_or i j) [
    | inl same ↦ subst IsState (sym (ap st' same ∙ c.st_self)) new
    | inr ne ↦ subst IsState (sym (c.st_ne j ne)) (old j lt)
  ]

  module _ (ops : IsKeyEq hash key_eq) (valid : IsTable hash key_eq before) where
    -- A free slot on the path of a key that the table lacks is filled with it.
    pub fill-IsTable :
        (i : ℕ) (k v : Bytes)
        → Miss hash key_eq before k i
        → Changes i 1 k v
        → IsTable hash key_eq after
    fill-IsTable i k v miss c = record {
      states = Changes-states i 1 k v c (inr (inl refl)) valid.states;
      chain = λ j lt one. elim (same_or i j) [
        | inl same ↦
            subst (λ x. Reaches after (hash (key' x) % n) x) (sym same)
              (subst (λ x. Reaches after (hash x % n) i) (sym c.key_self)
                (Reaches-mono (hash k % n) i keeps miss.reached))
        | inr ne ↦
            subst (λ x. Reaches after (hash x % n) j) (sym (c.key_ne j ne))
              (Reaches-mono (hash (key j) % n) j keeps
                (valid.chain j lt (sym (c.st_ne j ne) ∙ one)))
      ];
      unique = λ a b lt lt' one one' eq. elim (same_or i a) [
        | inl same_a ↦ elim (same_or i b) [
          | inl same_b ↦ same_a ∙ sym same_b
          | inr ne_b ↦
              let twin : key_eq k (key b) ≡ true =
                subst (λ x. key_eq x (key b) ≡ true) (ap key' same_a ∙ c.key_self)
                  (subst (λ x. key_eq (key' a) x ≡ true) (c.key_ne b ne_b) eq) in
              absurd (apart b lt' (sym (c.st_ne b ne_b) ∙ one') (ops.eq_sym k (key b) twin))
        ]
        | inr ne_a ↦ elim (same_or i b) [
          | inl same_b ↦
              let twin : key_eq (key a) k ≡ true =
                subst (λ x. key_eq (key a) x ≡ true) (ap key' same_b ∙ c.key_self)
                  (subst (λ x. key_eq x (key' b) ≡ true) (c.key_ne a ne_a) eq) in
              absurd (apart a lt (sym (c.st_ne a ne_a) ∙ one) twin)
          | inr ne_b ↦
              valid.unique a b lt lt' (sym (c.st_ne a ne_a) ∙ one) (sym (c.st_ne b ne_b) ∙ one') (
                subst (λ x. key_eq x (key b) ≡ true) (c.key_ne a ne_a)
                  (subst (λ x. key_eq (key' a) x ≡ true) (c.key_ne b ne_b) eq))
        ]
      ];
    }
      where
        keeps : (x : ℕ) → st x ≢ 0 → st' x ≢ 0
        keeps = Changes-full i 1 k v c (λ e. absurd (omega arith))

        apart : (j : ℕ) → j < n → st j ≡ 1 → key_eq (key j) k ≡ true → ⊥
        apart j lt one eq = let clash : true ≡ false = sym eq ∙ miss.lacks j lt one in absurd (cc)

    -- The state of slot `i` changes to deleted.
    pub delete-IsTable : (i : ℕ) → Changes i 2 (key i) (val i) → IsTable hash key_eq after
    delete-IsTable i c = record {
      states = Changes-states i 2 (key i) (val i) c (inr (inr refl)) valid.states;
      chain = λ j lt one.
          subst (λ x. Reaches after (hash x % n) j) (sym (key_same j))
            (Reaches-mono (hash (key j) % n) j
              (Changes-full i 2 (key i) (val i) c (λ e. absurd (omega arith)))
              (valid.chain j lt (was j one)));
      unique = λ a b lt lt' one one' eq. valid.unique a b lt lt' (was a one) (was b one') (
          subst (λ x. key_eq x (key b) ≡ true) (key_same a)
            (subst (λ x. key_eq (key' a) x ≡ true) (key_same b) eq));
    }
      where
        key_same : (j : ℕ) → key' j ≡ key j
        key_same j = elim (same_or i j) [
          | inl same ↦ ap key' same ∙ c.key_self ∙ ap key (sym same)
          | inr ne ↦ c.key_ne j ne
        ]

        was : (j : ℕ) → st' j ≡ 1 → st j ≡ 1
        was j one = elim (same_or i j) [
          | inl same ↦ let two : st' j ≡ 2 = ap st' same ∙ c.st_self in absurd (omega arith)
          | inr ne ↦ sym (c.st_ne j ne) ∙ one
        ]
