-- ===== src/Io/Combine/Trim.antt =====
-- The separators that d4np_path_combine drops.
use egl_utils_c.Base.{
  ℕ, zero, suc, ◌+◌, ◌-◌, ◌≤◌, ◌<◌, ◌≡◌, ◌≢◌, refl, sym, ap, ◌∙◌, arith, some, [], ◌∷◌, ◌++◌, Bytes,
  length, get_elem?, get_elem?-append_left, Bool-cases, inl, inr, ◌⊎◌,
}
use egl_utils_c.Io.Combine.{is_sep, trim_end, trim_start}

-- From `k` on the bytes are separators, and the one before is none.
abbrev pub TrimsEnd : Bytes → ℕ → ℕ → Type 0
TrimsEnd a n k =
    (k ≤ n)
    × ((i : ℕ) → k ≤ i → i < n → get_elem? a i ≡ some 47)
    × ((k ≡ 0) ⊎ (get_elem? a (k - 1) ≢ some 47))

get_elem?-some : (a : Bytes) (i : ℕ) → i < length a → (c : ℕ) × (get_elem? a i ≡ some c)
get_elem?-some [] i h = absurd (omega arith)
get_elem?-some (c ∷ a) zero h = (c, refl)
get_elem?-some (c ∷ a) (suc i) h = get_elem?-some a i (omega arith)

pub trim_end-TrimsEnd :
    (n : ℕ) (a rest : Bytes)
    → n ≤ length a
    → (k : ℕ) × (trim_end n (a ++ rest) ≡ some k) × TrimsEnd a n k
unfolding trim_end
trim_end-TrimsEnd zero a rest h =
    (0, refl, (omega arith, λ i le lt. absurd (omega arith), inl refl))
trim_end-TrimsEnd (suc n) a rest h =
    let (c, e) = get_elem?-some a n (omega arith) in
    let (k, r, (le, seps, stop)) = trim_end-TrimsEnd n a rest (omega arith) in
    let e' = get_elem?-append_left a rest n (omega arith) ∙ e in
    elim (Bool-cases (is_sep c)) [
      | inl hit ↦
          let is : c ≡ 47 = ground arith in
          rw (e', hit)
            (k, r, (omega arith, λ i above below. every i seps (e ∙ ap some is) above below, stop))
      | inr miss ↦
          let other : c ≢ 47 = ground arith in
          let last : suc n - 1 ≡ n = omega arith in
          rw (e', miss)
            (
              suc n,
              refl,
              (
                omega arith,
                λ i above below. absurd (omega arith),
                inr (λ f. other (same c (sym e ∙ ap (get_elem? a) (sym last) ∙ f))),
              ),
            )
    ]
  where
    order : (i : ℕ) → (i < n) ⊎ (i < suc n → i ≡ n)
    order i = omega arith

    every :
        {k : ℕ} (i : ℕ)
        → ((i : ℕ) → k ≤ i → i < n → get_elem? a i ≡ some 47)
        → get_elem? a n ≡ some 47
        → k ≤ i
        → i < suc n
        → get_elem? a i ≡ some 47
    every i seps here above below = elim (order i) [
      | inl lt ↦ seps i above lt
      | inr eq ↦ ap (get_elem? a) (eq below) ∙ here
    ]

    same : (c : ℕ) → some c ≡ some 47 → c ≡ 47
    same c e = cc

-- The separators in front, `j` of them, and the first byte behind them is none.
abbrev pub TrimsStart : Bytes → ℕ → Type 0
TrimsStart b j =
    (j ≤ length b)
    × ((i : ℕ) → i < j → get_elem? b i ≡ some 47)
    × ((j ≡ length b) ⊎ (get_elem? b j ≢ some 47))

pub trim_start-TrimsStart :
    (b rest : Bytes) → (j : ℕ) × (trim_start (length b) (b ++ rest) ≡ some j) × TrimsStart b j
unfolding trim_start
trim_start-TrimsStart [] rest = (0, refl, (omega arith, λ i lt. absurd (omega arith), inl refl))
trim_start-TrimsStart (c ∷ b) rest =
    let (j, r, (le, seps, stop)) = trim_start-TrimsStart b rest in
    elim (Bool-cases (is_sep c)) [
      | inl hit ↦
          let is : c ≡ 47 = ground arith in
          let up : j + 1 ≡ suc j = omega arith in
          rw (hit, r, up) (suc j, refl, (omega arith, λ i. front j i is seps, behind j stop))
      | inr miss ↦
          let other : c ≢ 47 = ground arith in
          rw miss (0, refl, (omega arith, λ i lt. absurd (omega arith), inr (λ f. other (cc))))
    ]
  where
    front :
        (j i : ℕ)
        → c ≡ 47
        → ((i : ℕ) → i < j → get_elem? b i ≡ some 47)
        → i < suc j
        → get_elem? (c ∷ b) i ≡ some 47
    front j zero is seps lt = ap some is
    front j (suc i) is seps lt = seps i (omega arith)

    behind :
        (j : ℕ)
        → (j ≡ length b) ⊎ (get_elem? b j ≢ some 47)
        → (suc j ≡ suc (length b)) ⊎ (get_elem? b j ≢ some 47)
    behind j (inl e) = inl (ap suc e)
    behind j (inr ne) = inr ne
