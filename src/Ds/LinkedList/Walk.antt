-- ===== src/Ds/LinkedList/Walk.antt =====
-- Walks along the links of the nodes.
use egl_utils_c.Base.{
  ℕ, ◌≡◌, refl, subst, ◌∙◌, some, List, [], ◌∷◌, ◌++◌, inl, inr, Contains, Distinct,
}
use egl_utils_c.Ds.LinkedList.{Heap}

-- `b` follows `a`, by the links both ways.
abbrev pub Linked : Heap → ℕ → ℕ → Type 0
Linked h a b = ((h a).next ≡ some b) × ((h b).prev ≡ some a)

-- From `a` the links lead through exactly these nodes.
abbrev pub Walk : Heap → ℕ → List ℕ → Type 0
Walk h a [] = Unit
Walk h a (x ∷ xs) = Linked h a x × Walk h x xs

abbrev pub last : ℕ → List ℕ → ℕ
last a [] = a
last a (x ∷ xs) = last x xs

-- The nodes whose next link a walk takes.
abbrev pub sources : ℕ → List ℕ → List ℕ
sources a [] = []
sources a (x ∷ xs) = a ∷ sources x xs

pub Walk-append :
    (h : Heap) (a : ℕ) (xs : List ℕ) (y : ℕ) (ys : List ℕ)
    → Walk h a (xs ++ (y ∷ ys))
    → Walk h a xs × Linked h (last a xs) y × Walk h y ys
Walk-append h a [] y ys (l, w) = (tt, l, w)
Walk-append h a (x ∷ xs) y ys (l, w) =
    let (wx, ly, wy) = Walk-append h x xs y ys w in ((l, wx), ly, wy)

pub append-Walk :
    (h : Heap) (a : ℕ) (xs : List ℕ) (y : ℕ) (ys : List ℕ)
    → Walk h a xs
    → Linked h (last a xs) y
    → Walk h y ys
    → Walk h a (xs ++ (y ∷ ys))
append-Walk h a [] y ys w l wy = (l, wy)
append-Walk h a (x ∷ xs) y ys (l, w) ly wy = (l, append-Walk h x xs y ys w ly wy)

pub sources-Contains :
    (a : ℕ) (xs : List ℕ) (y : ℕ) → Contains (sources a xs) y → Contains (a ∷ xs) y
sources-Contains a [] y h = absurd h
sources-Contains a (x ∷ xs) y h = elim h [
  | inl e ↦ inl e
  | inr rest ↦ inr (sources-Contains x xs y rest)
]

pub last-Contains : (a : ℕ) (xs : List ℕ) → Contains (a ∷ xs) (last a xs)
last-Contains a [] = inl refl
last-Contains a (x ∷ xs) = inr (last-Contains x xs)

-- The end of a walk without repetitions is not among its sources.
pub last_fresh : (a : ℕ) (xs : List ℕ) → Distinct (a ∷ xs) → ¬ Contains (sources a xs) (last a xs)
last_fresh a [] d h = h
last_fresh a (x ∷ xs) (fresh, d) h = elim h [
  | inl e ↦ fresh (subst (Contains (x ∷ xs)) e (last-Contains x xs))
  | inr rest ↦ last_fresh x xs d rest
]

-- A walk stays where the links that it takes stay.
pub Walk-kept :
    (h h' : Heap) (a : ℕ) (xs : List ℕ)
    → ((y : ℕ) → Contains (sources a xs) y → (h' y).next ≡ (h y).next)
    → ((y : ℕ) → Contains xs y → (h' y).prev ≡ (h y).prev)
    → Walk h a xs
    → Walk h' a xs
Walk-kept h h' a [] nexts prevs w = tt
Walk-kept h h' a (x ∷ xs) nexts prevs ((forth, back), w) = (
  (nexts a (inl refl) ∙ forth, prevs x (inl refl) ∙ back),
  Walk-kept h h' x xs (λ y inside. nexts y (inr inside)) (λ y inside. prevs y (inr inside)) w,
)

-- The sources of a walk that ends in `s`.
pub sources-snoc :
    (a s : ℕ) (xs : List ℕ) (y : ℕ) → Contains (sources a (xs ++ (s ∷ []))) y → Contains (a ∷ xs) y
sources-snoc a s [] y h = h
sources-snoc a s (x ∷ xs) y h = elim h [
  | inl e ↦ inl e
  | inr rest ↦ inr (sources-snoc x s xs y rest)
]
