-- ===== src/Ds/LinkedList/Calls.antt =====
-- The calls of linked_list.h, and what each does to the list of the nodes.
use egl_utils_c.Base.{
  ℕ, ◌+◌, ◌<◌, ◌≡◌, Option, none, some, List, [], ◌∷◌, ◌++◌, length, ◌⊎◌, size_mod, Contains, ◌>>=◌,
}
use egl_utils_c.Ds.LinkedList.{
  Heap, LinkedList, push_front, push_back, pop_front, pop_back, remove, front, back,
}
use egl_utils_c.Ds.LinkedList.Splice.{Ring}

-- The object holds the nodes `xs`, in this order.
pub record IsList (h : Heap) (list : LinkedList) (xs : List ℕ) : Type 0 where
  pub ring : Ring h list.sentinel xs
  pub len : list.len ≡ length xs
  pub len_lt : length xs < size_mod

-- The calls that change a list or look at its ends.
pub data Op : Type 0 where
  to_front to_back : ℕ → Op
  from_front from_back : Op
  taken : ℕ → Op
  at_front at_back : Op

-- A call's result, or NULL where it returns nothing.
unfoldable pub apply : Op → LinkedList → Heap → Option (Option ℕ × Option LinkedList × Heap)
unfolding push_front push_back pop_front pop_back remove front back
apply (to_front c) list h = do
  (list', h') ← push_front (some list) (some c) h
  some (none, list', h')
apply (to_back c) list h = do (list', h') ← push_back (some list) (some c) h; some (none, list', h')
apply from_front list h = pop_front (some list) h
apply from_back list h = pop_back (some list) h
apply (taken c) list h = do (list', h') ← remove (some list) (some c) h; some (none, list', h')
apply at_front list h = some (front (some list) h, some list, h)
apply at_back list h = some (back (some list) h, some list, h)

-- A node that is pushed is in no place of the list, and there is room to count it; a node that is
-- removed is one of the list.
abbrev pub Admits : Op → ℕ → List ℕ → Type 0
Admits (to_front c) s xs = (¬ Contains (s ∷ xs) c) × (length xs + 1 < size_mod)
Admits (to_back c) s xs = (¬ Contains (s ∷ xs) c) × (length xs + 1 < size_mod)
Admits (taken c) s xs = Contains xs c
Admits _ s xs = Unit

abbrev pub Cleared : Heap → ℕ → Type 0
Cleared h c = h c ≡ record { prev = none; next = none }

-- What a call does to the list of the nodes, its result, and the links of a node taken out.
abbrev pub Expected : Op → List ℕ → Option ℕ → List ℕ → Heap → Type 0
Expected (to_front c) xs r ys h = (r ≡ none) × (ys ≡ c ∷ xs)
Expected (to_back c) xs r ys h = (r ≡ none) × (ys ≡ xs ++ (c ∷ []))
Expected from_front xs r ys h =
    ((xs ≡ []) × (r ≡ none) × (ys ≡ [])) ⊎ ((x : ℕ) × (xs ≡ x ∷ ys) × (r ≡ some x) × Cleared h x)
Expected from_back xs r ys h =
    ((xs ≡ []) × (r ≡ none) × (ys ≡ []))
    ⊎ ((x : ℕ) × (xs ≡ ys ++ (x ∷ [])) × (r ≡ some x) × Cleared h x)
Expected (taken c) xs r ys h =
    (fs bs : List ℕ) × (xs ≡ fs ++ (c ∷ bs)) × (ys ≡ fs ++ bs) × (r ≡ none) × Cleared h c
Expected at_front xs r ys h =
    (ys ≡ xs)
    × (((xs ≡ []) × (r ≡ none)) ⊎ ((x : ℕ) × (zs : List ℕ) × (xs ≡ x ∷ zs) × (r ≡ some x)))
Expected at_back xs r ys h =
    (ys ≡ xs)
    × (((xs ≡ []) × (r ≡ none)) ⊎ ((x : ℕ) × (zs : List ℕ) × (xs ≡ zs ++ (x ∷ [])) × (r ≡ some x)))

abbrev pub Refines : Op → LinkedList → Heap → List ℕ → Type 0
Refines op list h xs =
    (r : Option ℕ) × (list' : LinkedList) × (h' : Heap) × (ys : List ℕ) × (apply op list h
      ≡ some (r, some list', h'))
    × IsList h' list' ys
    × (list'.sentinel ≡ list.sentinel)
    × Expected op xs r ys h'
