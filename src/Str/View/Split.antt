-- ===== src/Str/View/Split.antt =====
-- d4np_str_split: every field, counted and stored.
use egl_utils_c.Base.{
  ℕ, zero, suc, ◌+◌, ◌≤◌, ◌<◌, ◌≡◌, ◌≢◌, refl, sym, ap, ap₂, ◌∙◌, arith, true, Option, none, some,
  List, [], ◌∷◌, map, length, set, length-set, get_elem?, get_elem?-set_self, get_elem?-set_ne, ltb,
  lt→ltb, if◌then◌else◌, Bool-cases, inl, inr, ◌⊎◌, size_mod, add_size, add_size_exact,
}
use egl_utils_c.Str.View.{View, split_from, store, split_loop, split}
use egl_utils_c.Str.View.Fields.{fields}
use egl_utils_c.Str.View.SplitNext.{text, IsReadable, split_from-Split}

-- An array of views with `w` at index `c`, if that is below `max`.
abbrev stored : ℕ → ℕ → View → List View → List View
stored max c w o = if ltb c max then set o c w else o

-- The array after the fields `ws` are stored from index `c` on, below `max`.
unfoldable pub filled : ℕ → ℕ → List View → List View → List View
filled max c o [] = o
filled max c o (w ∷ ws) = filled max (c + 1) (stored max c w o) ws

abbrev pub filled_at : ℕ → ℕ → Option (List View) → List View → Option (List View)
filled_at max c none ws = none
filled_at max c (some o) ws = some (filled max c o ws)

-- `out` is NULL, or an array of at least `max` views.
abbrev pub HasRoom : ℕ → Option (List View) → Type 0
HasRoom max none = Unit {0}
HasRoom max (some o) = max ≤ length o

length-stored : (max c : ℕ) (w : View) (o : List View) → length (stored max c w o) ≡ length o
length-stored max c w o = elim (Bool-cases (ltb c max)) [
  | inl lt ↦ rw lt (length-set o c w)
  | inr ge ↦ rw ge refl
]

-- Below index `c`, and from `max` on, the array is as it was.
pub get_elem?-filled_outside :
    (max c : ℕ) (o ws : List View) (i : ℕ)
    → (i < c) ⊎ (max ≤ i)
    → get_elem? (filled max c o ws) i ≡ get_elem? o i
unfolding filled
get_elem?-filled_outside max c o [] i out = refl
get_elem?-filled_outside max c o (w ∷ ws) i out =
    get_elem?-filled_outside max (c + 1) (stored max c w o) ws i (omega arith) ∙ kept
  where
    kept : get_elem? (stored max c w o) i ≡ get_elem? o i
    kept = elim (Bool-cases (ltb c max)) [
      | inl lt ↦ let ne : c ≢ i = ground arith in rw lt (get_elem?-set_ne o c i w ne)
      | inr ge ↦ rw ge refl
    ]

-- From index `c` on, below `max`, the array holds the fields.
pub get_elem?-filled :
    (max c : ℕ) (o ws : List View) (k : ℕ)
    → max ≤ length o
    → c + k < max
    → k < length ws
    → get_elem? (filled max c o ws) (c + k) ≡ get_elem? ws k
unfolding filled
get_elem?-filled max c o [] k room lt in_ws = absurd (omega arith)
get_elem?-filled max c o (w ∷ ws) zero room lt in_ws =
    let here : c + 0 ≡ c = omega arith in
    get_elem?-filled_outside max (c + 1) (stored max c w o) ws (c + 0) (omega arith)
    ∙ ap (get_elem? (stored max c w o)) here
    ∙ rw (lt→ltb c max (omega arith)) (get_elem?-set_self o c w (omega arith))
get_elem?-filled max c o (w ∷ ws) (suc k) room lt in_ws =
    let shift : c + suc k ≡ c + 1 + k = omega arith in
    ap (get_elem? (filled max (c + 1) (stored max c w o) ws)) shift
    ∙ get_elem?-filled max (c + 1) (stored max c w o) ws k (omega (arith, length-stored max c w o))
        (omega arith) (omega arith)

stored_at : ℕ → ℕ → View → Option (List View) → Option (List View)
stored_at max c w none = none
stored_at max c w (some o) = some (stored max c w o)

store-stored :
    (max c : ℕ) (w : View) (out : Option (List View))
    → HasRoom max out
    → (store out max c w ≡ some (stored_at max c w out)) × HasRoom max (stored_at max c w out)
unfolding store stored_at
store-stored max c w none room = (refl, tt)
store-stored max c w (some o) room = (put, omega (arith, length-stored max c w o))
  where
    put : store (some o) max c w ≡ some (some (stored max c w o))
    put = elim (Bool-cases (ltb c max)) [
      | inl lt ↦ let fits : ltb c (length o) ≡ true = ground arith in rw (lt, fits) refl
      | inr ge ↦ rw ge refl
    ]

filled_at-cons :
    (max c : ℕ) (out : Option (List View)) (w : View) (ws : List View)
    → filled_at max (c + 1) (stored_at max c w out) ws ≡ filled_at max c out (w ∷ ws)
unfolding filled stored_at
filled_at-cons max c none w ws = refl
filled_at-cons max c (some o) w ws = refl

filled_at_nil : (max c : ℕ) (out : Option (List View)) → filled_at max c out [] ≡ out
unfolding filled
filled_at_nil max c none = refl
filled_at_nil max c (some o) = refl

-- The result: the fields are counted on from `count`, and those that have room are stored.
abbrev pub AllFields :
    ℕ → View → ℕ → ℕ → Option (List View) → Option (ℕ × Option (List View)) → Type 0
AllFields sep sv max count out r =
    (ws : List View) × (map text ws ≡ fields sep (text sv))
    × (r ≡ some (count + length ws, filled_at max count out ws))

loop_end :
    (fuel sep : ℕ) (sv token : View) (out : Option (List View)) (max count : ℕ)
    → sv.ptr ≡ none
    → split_loop (suc fuel) sv sep token out max count ≡ some (count, out)
unfolding split_loop split_from
loop_end fuel sep sv token out max count e = rw e refl

pred : (n : ℕ) → 0 < n → (m : ℕ) × (n ≡ suc m)
pred zero h = absurd (omega arith)
pred (suc m) h = (m, refl)

split_loop-AllFields :
    (fuel sep : ℕ) (sv token : View) (out : Option (List View)) (max count : ℕ)
    → IsReadable sv
    → sv.len + 2 ≤ fuel
    → count + sv.len + 1 < size_mod
    → HasRoom max out
    → AllFields sep sv max count out (split_loop fuel sv sep token out max count)
unfolding split_loop
split_loop-AllFields zero sep sv token out max count v enough small room = absurd (omega arith)
split_loop-AllFields (suc fuel) sep sv token out max count v enough small room =
    let (sv', w, e, next) = split_from-Split sep sv token v in
    let (put, room') = store-stored max count w out room in
    let up : add_size count 1 ≡ count + 1 = add_size_exact count 1 (omega arith) in
    rw (e, put, up)
      (elim next [
        | inl (end, whole) ↦
            let (f, more) = pred fuel (omega arith) in
            let n : count + 1 ≡ count + suc 0 = omega arith in
            let stop : split_loop fuel sv' sep w (stored_at max count w out) max (count + 1)
                ≡ some (count + 1, stored_at max count w out) =
              ap (λ g. split_loop g sv' sep w (stored_at max count w out) max (count + 1)) more
              ∙ loop_end f sep sv' w (stored_at max count w out) max (count + 1) end in
            (
              w ∷ [],
              sym whole,
              stop
                  ∙ ap₂ (λ a b. some (a, b)) n
                      (sym (filled_at_nil max (count + 1) (stored_at max count w out))
                        ∙ filled_at-cons max count out w []),
            )
        | inr (v', less, whole) ↦
            let (ws, same, r) =
              split_loop-AllFields fuel sep sv' w (stored_at max count w out) max (count + 1) v'
                (omega arith) (omega arith) room' in
            let n : count + 1 + length ws ≡ count + suc (length ws) = omega arith in
            (
              w ∷ ws,
              rw whole (ap (λ l. text w ∷ l) same),
              r ∙ ap₂ (λ a b. some (a, b)) n (filled_at-cons max count out w ws),
            )
      ])

-- d4np_str_split on a readable view of fewer than SIZE_MAX bytes returns, within the fuel, the
-- number of all the fields of its text, and stores those that have room in `out`.
pub split-AllFields :
    (sep : ℕ) (sv : View) (out : Option (List View)) (max : ℕ)
    → IsReadable sv
    → sv.len + 1 < size_mod
    → HasRoom max out
    → AllFields sep sv max 0 out (split sv sep out max)
unfolding split
split-AllFields sep sv out max v small room =
    split_loop-AllFields (sv.len + 2) sep sv (record { ptr = none; len = 0 }) out max 0 v
      (omega arith) (omega arith) room
