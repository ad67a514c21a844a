-- ===== src/Str/View/SplitNext.antt =====
-- d4np_str_view_split_next takes the first field off a view.
use egl_utils_c.Base.{
  ℕ, zero, suc, ◌+◌, ◌-◌, ◌≤◌, ◌<◌, ◌≡◌, refl, sym, ap, ap₂, ◌∙◌, arith, Bool, true, Option, none,
  some, [], ◌∷◌, Bytes, length, drop, take, length-drop, ◌==◌, Bool-cases, inl, inr, ◌⊎◌, size_mod,
  add_size, sub_size, subst, bytes_of,
}
use egl_utils_c.Str.View.{View, find_sep, emit, split_from}
use egl_utils_c.Str.View.Fields.{fields, extend}

-- The bytes that a view shows.
abbrev pub text : View → Bytes
text v = take v.len (bytes_of v.ptr)

-- A view that is not NULL and shows readable bytes.
pub record IsReadable (v : View) : Type 0 where
  pub start : Bytes
  pub at : v.ptr ≡ some start
  pub inside : v.len ≤ length start
  pub len_lt : v.len < size_mod

-- The loop finds the first separator: the field before it, and what is left behind it.
abbrev Found : ℕ → ℕ → ℕ → Bytes → Option (Option ℕ) → Type 0
Found sep i n s r =
    ((r ≡ some none) × (fields sep (take n s) ≡ take n s ∷ []))
    ⊎ ((j : ℕ) × (r ≡ some (some (i + j)))
        × (j < n)
        × (fields sep (take n s) ≡ take j s ∷ fields sep (take (n - suc j) (drop (suc j) s))))

find_sep-Found : (sep i n : ℕ) (s : Bytes) → n ≤ length s → Found sep i n s (find_sep sep i n s)
unfolding find_sep fields extend
find_sep-Found sep i zero s h = inl (refl, refl)
find_sep-Found sep i (suc n) [] h = absurd (omega arith)
find_sep-Found sep i (suc n) (c ∷ s) h = elim (Bool-cases (c == sep)) [
  | inl hit ↦
      let here : i ≡ i + 0 = omega arith in
      let left : n ≡ suc n - 1 = omega arith in
      rw hit (
        inr
          (0, ap (λ k. some (some k)) here, omega arith, ap (λ m. [] ∷ fields sep (take m s)) left))
  | inr miss ↦ rw miss (step (find_sep-Found sep (i + 1) n s (omega arith)))
]
  where
    step :
        Found sep (i + 1) n s (find_sep sep (i + 1) n s)
        → ((find_sep sep (i + 1) n s ≡ some none)
            × (extend c (fields sep (take n s)) ≡ (c ∷ take n s) ∷ []))
          ⊎ ((j : ℕ) × (find_sep sep (i + 1) n s ≡ some (some (i + j)))
              × (j < suc n)
              × (extend c (fields sep (take n s))
                  ≡ take j (c ∷ s) ∷ fields sep (take (suc n - suc j) (drop (suc j) (c ∷ s)))))
    step (inl (e, whole)) = inl (e, rw whole refl)
    step (inr (j, e, lt, split)) =
        let shift : i + 1 + j ≡ i + suc j = omega arith in
        let left : n - suc j ≡ suc n - suc (suc j) = omega arith in
        inr (
          suc j,
          e ∙ ap (λ k. some (some k)) shift,
          omega arith,
          rw split (ap (λ m. (c ∷ take j s) ∷ fields sep (take m (drop (suc j) s))) left),
        )

-- What d4np_str_view_split_next does to a readable view: the field it emits is the first of the
-- text, and the view goes on to the others, or to NULL after the last.
abbrev pub Split : ℕ → View → Option (Bool × View × View) → Type 0
Split sep sv r =
    (sv' : View) × (out : View) × (r ≡ some (true, sv', out))
    × (((sv'.ptr ≡ none) × (fields sep (text sv) ≡ text out ∷ []))
        ⊎ (IsReadable sv'
            × (sv'.len < sv.len)
            × (fields sep (text sv) ≡ text out ∷ fields sep (text sv'))))

Split-at :
    (sep n : ℕ) (s : Bytes) (out : View)
    → n ≤ length s
    → n < size_mod
    → Split sep
        (record { ptr = some s; len = n })
        (split_from (record { ptr = some s; len = n }) sep out (some s))
unfolding split_from emit
Split-at sep n s out h small = go (find_sep-Found sep 0 n s h)
  where
    go :
        Found sep 0 n s (find_sep sep 0 n s)
        → Split sep
            (record { ptr = some s; len = n })
            (split_from (record { ptr = some s; len = n }) sep out (some s))
    go (inl (e, whole)) = (
      record { ptr = none; len = 0 },
      record { ptr = some s; len = n },
      rw e refl,
      inl (refl, whole),
    )
    go (inr (j, e, lt, split)) =
        let e' : find_sep sep 0 n s ≡ some (some j) =
          e ∙ (let z : 0 + j ≡ j = omega arith in ap (λ k. some (some k)) z) in
        let next : suc j ≡ add_size j 1 = omega arith in
        let left : n - suc j ≡ sub_size (sub_size n j) 1 = omega arith in
        (
          record { ptr = some (drop (add_size j 1) s); len = sub_size (sub_size n j) 1 },
          record { ptr = some s; len = j },
          rw e' refl,
          inr (
            record {
              start = drop (add_size j 1) s;
              at = refl;
              inside = omega (arith, length-drop (add_size j 1) s);
              len_lt = omega arith;
            },
            omega arith,
            split ∙ ap₂ (λ m k. take j s ∷ fields sep (take m (drop k s))) left next,
          ),
        )

-- d4np_str_view_split_next on a readable view reads inside it, returns true and emits the first
-- field of its text; the view then shows the rest, or is NULL if that was the last field.
pub split_from-Split :
    (sep : ℕ) (sv out : View) → IsReadable sv → Split sep sv (split_from sv sep out sv.ptr)
split_from-Split sep sv out v =
    subst (λ w. Split sep w (split_from w sep out w.ptr)) (sym shown)
      (Split-at sep sv.len v.start out v.inside v.len_lt)
  where
    shown : sv ≡ record { ptr = some v.start; len = sv.len }
    shown = λ i. record { ptr = v.at i; len = sv.len }
