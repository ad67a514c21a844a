-- ===== src/Mem/Pool/Slots.antt =====
-- Lists of slots of a pool, each as its offset.
use egl_utils_c.Base.{
  Contains, Distinct, ℕ, ◌+◌, ◌*◌, ◌<◌, ◌≡◌, ◌≢◌, subst, arith, List, [], ◌∷◌, length, ◌==◌,
  if◌then◌else◌, Bool-cases, inl, inr,
}

-- The offsets of slots below `n`.
abbrev pub AreSlots : ℕ → ℕ → List ℕ → Type 0
AreSlots stride n xs = (x : ℕ) → Contains xs x → (i : ℕ) × (i < n) × (x ≡ i * stride)

unfoldable pub remove : ℕ → List ℕ → List ℕ
remove x [] = []
remove x (y ∷ ys) = if x == y then ys else y ∷ remove x ys

pub remove-Contains : (x y : ℕ) (xs : List ℕ) → Contains (remove x xs) y → Contains xs y
unfolding remove
remove-Contains x y [] = λ h. h
remove-Contains x y (z ∷ zs) = elim (Bool-cases (x == z)) [
  | inl hit ↦ rw hit (λ h. inr h)
  | inr miss ↦
      rw miss (λ h. elim h [ inl e ↦ inl e | inr rest ↦ inr (remove-Contains x y zs rest) ])
]

pub remove_gone : (x : ℕ) (xs : List ℕ) → Distinct xs → ¬ Contains (remove x xs) x
unfolding remove
remove_gone x [] d = λ h. h
remove_gone x (z ∷ zs) (fresh, d) = elim (Bool-cases (x == z)) [
  | inl hit ↦ let e : x ≡ z = ground arith in rw hit (λ h. fresh (subst (λ w. Contains zs w) e h))
  | inr miss ↦
      let ne : x ≢ z = ground arith in
      rw miss (λ h. elim h [ inl e ↦ ne e | inr rest ↦ remove_gone x zs d rest ])
]

pub remove-Distinct : (x : ℕ) (xs : List ℕ) → Distinct xs → Distinct (remove x xs)
unfolding remove
remove-Distinct x [] d = d
remove-Distinct x (z ∷ zs) (fresh, d) = elim (Bool-cases (x == z)) [
  | inl hit ↦ rw hit d
  | inr miss ↦ rw miss (λ h. fresh (remove-Contains x z zs h), remove-Distinct x zs d)
]

pub length-remove : (x : ℕ) (xs : List ℕ) → Contains xs x → length (remove x xs) + 1 ≡ length xs
unfolding remove
length-remove x [] h = absurd h
length-remove x (z ∷ zs) h = elim (Bool-cases (x == z)) [
  | inl hit ↦ rw hit (omega arith)
  | inr miss ↦
      let ne : x ≢ z = ground arith in
      rw miss (elim h [ inl e ↦ absurd (ne e) | inr rest ↦ omega (arith, length-remove x zs rest) ])
]
