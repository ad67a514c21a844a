-- ===== src/Base/Members.antt =====
-- Membership in lists of numbers as a predicate by recursion, and lists without repetitions.
use Prim.Native.Nat.{ℕ}
use mathlib.Core.Path.{◌≡◌, refl, subst}
use mathlib.Core.Logic.{◌⊎◌, inl, inr}
use mathlib.Core.List.{List, [], ◌∷◌, ◌++◌}

abbrev pub Contains : List ℕ → ℕ → Type 0
Contains [] x = ⊥
Contains (y ∷ ys) x = (x ≡ y) ⊎ Contains ys x

abbrev pub Distinct : List ℕ → Type 0
Distinct [] = Unit
Distinct (y ∷ ys) = ¬ Contains ys y × Distinct ys

abbrev pub Apart : List ℕ → List ℕ → Type 0
Apart xs ys = (x : ℕ) → Contains xs x → ¬ Contains ys x

pub Contains-append :
    (xs ys : List ℕ) (a : ℕ) → Contains (xs ++ ys) a → Contains xs a ⊎ Contains ys a
Contains-append [] ys a h = inr h
Contains-append (x ∷ xs) ys a h = elim h [
  | inl e ↦ inl (inl e)
  | inr rest ↦ elim (Contains-append xs ys a rest) [ inl l ↦ inl (inr l) | inr r ↦ inr r ]
]

pub Contains-append_left : (xs ys : List ℕ) (a : ℕ) → Contains xs a → Contains (xs ++ ys) a
Contains-append_left [] ys a h = absurd h
Contains-append_left (x ∷ xs) ys a h = elim h [
  | inl e ↦ inl e
  | inr rest ↦ inr (Contains-append_left xs ys a rest)
]

pub Contains-append_right : (xs ys : List ℕ) (a : ℕ) → Contains ys a → Contains (xs ++ ys) a
Contains-append_right [] ys a h = h
Contains-append_right (x ∷ xs) ys a h = inr (Contains-append_right xs ys a h)

pub Distinct-append :
    (xs ys : List ℕ) → Distinct (xs ++ ys) → Distinct xs × Distinct ys × Apart xs ys
Distinct-append [] ys d = (tt, d, λ x h. absurd h)
Distinct-append (x ∷ xs) ys (fresh, d) =
    let (dx, dy, apart) = Distinct-append xs ys d in
    (
      ((λ h. fresh (Contains-append_left xs ys x h)), dx),
      dy,
      λ y h. elim h [
        | inl e ↦ λ k. fresh (Contains-append_right xs ys x (subst (Contains ys) e k))
        | inr rest ↦ apart y rest
      ],
    )

pub Apart-Distinct :
    (xs ys : List ℕ) → Distinct xs → Distinct ys → Apart xs ys → Distinct (xs ++ ys)
Apart-Distinct [] ys dx dy apart = dy
Apart-Distinct (x ∷ xs) ys (fresh, dx) dy apart = (
  (λ h. elim (Contains-append xs ys x h) [ inl l ↦ fresh l | inr r ↦ apart x (inl refl) r ]),
  Apart-Distinct xs ys dx dy (λ y h. apart y (inr h)),
)
