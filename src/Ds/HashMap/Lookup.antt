-- ===== src/Ds/HashMap/Lookup.antt =====
-- The search through all slots has one answer, in a table that holds no key twice.
use egl_utils_c.Base.{
  ℕ, zero, suc, ◌<◌, ◌≡◌, refl, sym, ap, ◌∙◌, arith, Bool, true, false, Option, none, some, Bytes,
  ◌==◌, ◌&&◌, Bool-cases, inl, inr, ◌⊎◌,
}
use egl_utils_c.Ds.HashMap.Table.{Table, IsKeyEq, IsTable, Lacks, Hit, lookup_below, lookup}

-- `r` is the value of the slot that has the key, or `none` where no slot has it.
abbrev AnswersBelow : (Bytes → Bytes → Bool) → Table → Bytes → ℕ → Option Bytes → Type 0
AnswersBelow key_eq t q n r =
    ((r ≡ none) × ((j : ℕ) → j < n → t.st j ≡ 1 → key_eq (t.key j) q ≡ false))
    ⊎ ((j : ℕ) × (j < n) × (t.st j ≡ 1) × (key_eq (t.key j) q ≡ true) × (r ≡ some (t.val j)))

abbrev pub Answers : (Bytes → Bytes → Bool) → Table → Bytes → Option Bytes → Type 0
Answers key_eq t q r =
    ((r ≡ none) × Lacks key_eq t q) ⊎ ((j : ℕ) × Hit key_eq t q j × (r ≡ some (t.val j)))

module _ (key_eq : Bytes → Bytes → Bool) (t : Table) (q : Bytes) where
  lookup_below-AnswersBelow : (n : ℕ) → AnswersBelow key_eq t q n (lookup_below key_eq t q n)
  unfolding lookup_below
  lookup_below-AnswersBelow zero = inl (refl, λ j lt. absurd (omega arith))
  lookup_below-AnswersBelow (suc n) = elim (Bool-cases (t.st n == 1 && key_eq (t.key n) q)) [
    | inl hit ↦ rw hit (inr (n, omega arith, occupied hit, matches hit, refl))
    | inr miss ↦ rw miss (elim (lookup_below-AnswersBelow n) [
      | inl (nothing, lacks) ↦ inl (
        nothing,
        λ j lt at_one. elim (order j lt) [
          | inl below ↦ lacks j below at_one
          | inr last ↦
              let here : t.st n ≡ 1 = ap t.st (sym last) ∙ at_one in
              ap (λ i. key_eq (t.key i) q) last ∙ mismatch miss here
        ],
      )
      | inr (j, lt, at_one, eq, value) ↦ inr (j, omega arith, at_one, eq, value)
    ])
  ]
    where
      occupied : (t.st n == 1 && key_eq (t.key n) q) ≡ true → t.st n ≡ 1
      occupied hit = ground arith

      matches : (t.st n == 1 && key_eq (t.key n) q) ≡ true → key_eq (t.key n) q ≡ true
      matches hit = ground arith

      mismatch :
          (t.st n == 1 && key_eq (t.key n) q) ≡ false → t.st n ≡ 1 → key_eq (t.key n) q ≡ false
      mismatch miss one = ground arith

      order : (j : ℕ) → j < suc n → (j < n) ⊎ (j ≡ n)
      order j lt = omega arith

  pub lookup-Answers : Answers key_eq t q (lookup key_eq t q)
  unfolding lookup
  lookup-Answers = elim (lookup_below-AnswersBelow t.size) [
    | inl a ↦ inl a
    | inr (j, lt, one, eq, value) ↦ inr (j, (lt, one, eq), value)
  ]

-- There is one answer.
pub Answers-lookup :
    (hash : Bytes → ℕ) (key_eq : Bytes → Bytes → Bool) (t : Table) (q : Bytes) (r : Option Bytes)
    → IsKeyEq hash key_eq
    → IsTable hash key_eq t
    → Answers key_eq t q r
    → lookup key_eq t q ≡ r
Answers-lookup hash key_eq t q r ops valid a = go (lookup-Answers key_eq t q) a
  where
    clash : (j : ℕ) → Lacks key_eq t q → Hit key_eq t q j → true ≡ false
    clash j lacks (lt, one, eq) = sym eq ∙ lacks j lt one

    same : (i j : ℕ) → Hit key_eq t q i → Hit key_eq t q j → i ≡ j
    same i j (lt, one, eq) (lt', one', eq') =
        valid.unique i j lt lt' one one'
          (ops.eq_trans (t.key i) q (t.key j) eq (ops.eq_sym (t.key j) q eq'))

    go : {x : Option Bytes} → Answers key_eq t q x → Answers key_eq t q r → x ≡ r
    go (inl (e, lacks)) (inl (e', lacks')) = e ∙ sym e'
    go (inl (e, lacks)) (inr (j, hit, e')) = absurd (let c = clash j lacks hit in cc)
    go (inr (i, hit, e)) (inl (e', lacks)) = absurd (let c = clash i lacks hit in cc)
    go (inr (i, hit, e)) (inr (j, hit', e')) =
        e ∙ ap (λ k. some (t.val k)) (same i j hit hit') ∙ sym e'
