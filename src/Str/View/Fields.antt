-- ===== src/Str/View/Fields.antt =====
-- The fields of a text between separators, as a function of the text alone.
use egl_utils_c.Base.{
  ℕ, ◌≡◌, ◌≢◌, refl, sym, ap, ◌∙◌, arith, List, [], ◌∷◌, ◌++◌, Bytes, ◌==◌, if◌then◌else◌,
  Bool-cases, inl, inr,
}

-- The byte in front of the first field.
unfoldable pub extend : ℕ → List Bytes → List Bytes
extend c [] = (c ∷ []) ∷ []
extend c (w ∷ ws) = (c ∷ w) ∷ ws

unfoldable pub fields : ℕ → Bytes → List Bytes
unfolding extend
fields sep [] = [] ∷ []
fields sep (c ∷ s) = let rest = fields sep s in if c == sep then [] ∷ rest else extend c rest

unfoldable pub join : ℕ → List Bytes → Bytes
join sep [] = []
join sep (w ∷ []) = w
join sep (w ∷ (v ∷ ws)) = w ++ (sep ∷ join sep (v ∷ ws))

abbrev pub NoSep : ℕ → Bytes → Type 0
NoSep sep [] = Unit {0}
NoSep sep (c ∷ w) = (c ≢ sep) × NoSep sep w

abbrev pub AllNoSep : ℕ → List Bytes → Type 0
AllNoSep sep [] = Unit {0}
AllNoSep sep (w ∷ ws) = NoSep sep w × AllNoSep sep ws

-- A list of fields is never empty.
pub fields_cons : (sep : ℕ) (s : Bytes) → (w : Bytes) × (ws : List Bytes) × (fields sep s ≡ w ∷ ws)
unfolding fields
fields_cons sep [] = ([], [], refl)
fields_cons sep (c ∷ s) =
    let (w, ws, e) = fields_cons sep s in
    elim (Bool-cases (c == sep)) [
      | inl hit ↦ rw hit ([], fields sep s, refl)
      | inr miss ↦ rw (miss, e) (c ∷ w, ws, refl)
    ]

join-extend :
    (sep c : ℕ) (w : Bytes) (ws : List Bytes) → join sep (extend c (w ∷ ws)) ≡ c ∷ join sep (w ∷ ws)
unfolding join extend
join-extend sep c w [] = refl
join-extend sep c w (v ∷ ws) = refl

join-nil_cons :
    (sep : ℕ) (w : Bytes) (ws : List Bytes) → join sep ([] ∷ (w ∷ ws)) ≡ sep ∷ join sep (w ∷ ws)
unfolding join
join-nil_cons sep w ws = refl

pub join-fields : (sep : ℕ) (s : Bytes) → join sep (fields sep s) ≡ s
unfolding fields
join-fields sep [] = unfold join in refl
join-fields sep (c ∷ s) =
    let (w, ws, e) = fields_cons sep s in
    let ih : join sep (w ∷ ws) ≡ s = ap (join sep) (sym e) ∙ join-fields sep s in
    elim (Bool-cases (c == sep)) [
      | inl hit ↦
          let is : sep ≡ c = ground arith in rw (hit, e, join-nil_cons, ih) (ap (λ x. x ∷ s) is)
      | inr miss ↦ rw (miss, e, join-extend, ih) refl
    ]

pub fields-AllNoSep : (sep : ℕ) (s : Bytes) → AllNoSep sep (fields sep s)
unfolding fields
fields-AllNoSep sep [] = (tt, tt)
fields-AllNoSep sep (c ∷ s) =
    let (w, ws, e) = fields_cons sep s in
    let ih : AllNoSep sep (w ∷ ws) = rw e at (fields-AllNoSep sep s) in
    elim (Bool-cases (c == sep)) [
      | inl hit ↦ rw (hit, e) (tt, ih)
      | inr miss ↦ rw (miss, e) ((ground arith, ih.0), ih.1)
    ]
