-- ===== src/Ds/HashMap/Answer.antt =====
-- The search through a table after a slot was filled, deleted or revalued.
use egl_utils_c.Base.{
  ℕ, ◌<◌, ◌≡◌, ◌≢◌, refl, sym, ap, subst, ◌∙◌, arith, Bool, true, false, none, some, Bytes,
  if◌then◌else◌, Bool-cases, inl, inr,
}
use egl_utils_c.Ds.HashMap.Table.{Table, IsKeyEq, IsTable, Lacks, Hit, Miss, lookup}
use egl_utils_c.Ds.HashMap.Lookup.{Answers, lookup-Answers, Answers-lookup}
use egl_utils_c.Ds.HashMap.Update.{same_or, Changes, fill-IsTable, delete-IsTable}

module _ (hash : Bytes → ℕ) (key_eq : Bytes → Bytes → Bool) (n : ℕ) (st st' : ℕ → ℕ)
    (key key' val val' : ℕ → Bytes) where
  abbrev before : Table
  before = record { size = n; st = st; key = key; val = val }

  abbrev after : Table
  after = record { size = n; st = st'; key = key'; val = val' }

  module _ (i s : ℕ) (k v : Bytes)
      (c : Changes hash key_eq n st st' key key' val val' i s k v) where
    -- Another slot of the table answers as before.
    kept-Hit : (q : Bytes) (j : ℕ) → j ≢ i → Hit key_eq before q j → Hit key_eq after q j
    kept-Hit q j ne (lt, one, eq) =
        (lt, c.st_ne j ne ∙ one, subst (λ x. key_eq x q ≡ true) (sym (c.key_ne j ne)) eq)

    kept-Lacks :
        (q : Bytes)
        → Lacks key_eq before q
        → (j : ℕ) → j ≢ i
        → j < n
        → st' j ≡ 1
        → key_eq (key' j) q ≡ false
    kept-Lacks q lacks j ne lt one =
        subst (λ x. key_eq x q ≡ false) (sym (c.key_ne j ne))
          (lacks j lt (sym (c.st_ne j ne) ∙ one))

    -- The new slot is the only one that answers for its key.
    new-Answers : (q : Bytes) → i < n → s ≡ 1 → key_eq k q ≡ true → Answers key_eq after q (some v)
    new-Answers q lt one eq = inr (
      i,
      (lt, c.st_self ∙ one, subst (λ x. key_eq x q ≡ true) (sym c.key_self) eq),
      ap some (sym c.val_self),
    )

    -- Where slot `i` does not answer before nor after, the answer is the old one.
    old-Answers :
        (q : Bytes)
        → (Hit key_eq before q i → ⊥)
        → (st' i ≡ 1 → key_eq (key' i) q ≡ false)
        → Answers key_eq after q (lookup key_eq before q)
    old-Answers q not_before not_after = elim (lookup-Answers key_eq before q) [
      | inl (e, lacks) ↦ inl (
        e,
        λ j lt one. elim (same_or i j) [
          | inl same ↦
              subst (λ x. key_eq (key' x) q ≡ false) (sym same)
                (not_after (ap st' (sym same) ∙ one))
          | inr ne ↦ kept-Lacks q lacks j ne lt one
        ],
      )
      | inr (j, hit, e) ↦ elim (same_or i j) [
        | inl same ↦ absurd (not_before (subst (Hit key_eq before q) same hit))
        | inr ne ↦ inr (j, kept-Hit q j ne hit, e ∙ ap some (sym (c.val_ne j ne)))
      ]
    ]

  module _ (ops : IsKeyEq hash key_eq) (valid : IsTable hash key_eq before) where
    pub fill-lookup :
        (i : ℕ) (k v q : Bytes)
        → Miss hash key_eq before k i
        → Changes hash key_eq n st st' key key' val val' i 1 k v
        → lookup key_eq after q ≡ (if key_eq k q then some v else lookup key_eq before q)
    fill-lookup i k v q miss c =
        Answers-lookup hash key_eq after q _ ops
          (fill-IsTable hash key_eq n st st' key key' val val' ops valid i k v miss c)
          (elim (Bool-cases (key_eq k q)) [
            | inl yes_eq ↦ rw yes_eq (new-Answers i 1 k v c q miss.inside refl yes_eq)
            | inr no_eq ↦ rw no_eq (
                old-Answers i 1 k v c q (λ hit. miss.vacant hit.1)
                  (λ one. subst (λ x. key_eq x q ≡ false) (sym c.key_self) no_eq))
          ])

    pub delete-lookup :
        (i : ℕ) (k q : Bytes)
        → Hit key_eq before k i
        → Changes hash key_eq n st st' key key' val val' i 2 (key i) (val i)
        → lookup key_eq after q ≡ (if key_eq k q then none else lookup key_eq before q)
    delete-lookup i k q hit c =
        Answers-lookup hash key_eq after q _ ops
          (delete-IsTable hash key_eq n st st' key key' val val' ops valid i c)
          (elim (Bool-cases (key_eq k q)) [
            | inl yes_eq ↦ rw yes_eq (
                inl (
                  refl,
                  λ j lt one. elim (same_or i j) [
                    | inl same ↦ absurd (gone j same one)
                    | inr ne ↦ elim (Bool-cases (key_eq (key' j) q)) [
                      | inr other ↦ other
                      | inl twin ↦ absurd (
                          ne (
                            valid.unique j i lt hit.0 (sym (c.st_ne j ne) ∙ one) hit.1 (
                              ops.eq_trans (key j) q (key i)
                                (subst (λ x. key_eq x q ≡ true) (c.key_ne j ne) twin)
                                (ops.eq_sym (key i) q (ops.eq_trans (key i) k q hit.2 yes_eq)))))
                    ]
                  ],
                ))
            | inr no_eq ↦ rw no_eq (
                old-Answers i 2 (key i) (val i) c q (λ h. clash no_eq h.2)
                  (λ one. absurd (gone i refl one)))
          ])
      where
        gone : (j : ℕ) → j ≡ i → st' j ≡ 1 → ⊥
        gone j same one = let two : st' j ≡ 2 = ap st' same ∙ c.st_self in absurd (omega arith)

        clash : key_eq k q ≡ false → key_eq (key i) q ≡ true → ⊥
        clash no_eq eq =
            let yes_eq : key_eq k q ≡ true =
              ops.eq_trans k (key i) q (ops.eq_sym (key i) k hit.2) eq in
            absurd (cc)

    pub revalue-lookup :
        (i : ℕ) (k v q : Bytes)
        → Hit key_eq before k i
        → IsTable hash key_eq after
        → Changes hash key_eq n st st' key key' val val' i 1 (key i) v
        → lookup key_eq after q ≡ (if key_eq k q then some v else lookup key_eq before q)
    revalue-lookup i k v q hit valid' c =
        Answers-lookup hash key_eq after q _ ops valid' (elim (Bool-cases (key_eq k q)) [
          | inl yes_eq ↦
              rw yes_eq
                (new-Answers i 1 (key i) v c q hit.0 refl (ops.eq_trans (key i) k q hit.2 yes_eq))
          | inr no_eq ↦ rw no_eq (
              old-Answers i 1 (key i) v c q (λ h. clash no_eq h.2)
                (λ one. subst (λ x. key_eq x q ≡ false) (sym c.key_self) (differs no_eq)))
        ])
      where
        clash : key_eq k q ≡ false → key_eq (key i) q ≡ true → ⊥
        clash no_eq eq =
            let yes_eq : key_eq k q ≡ true =
              ops.eq_trans k (key i) q (ops.eq_sym (key i) k hit.2) eq in
            absurd (cc)

        differs : key_eq k q ≡ false → key_eq (key i) q ≡ false
        differs no_eq = elim (Bool-cases (key_eq (key i) q)) [
          | inl eq ↦ absurd (clash no_eq eq)
          | inr other ↦ other
        ]
