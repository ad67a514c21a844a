-- ===== src/Ds/LinkedList/Valid.antt =====
-- `link_between` puts a node into the ring of a list, and `unlink` takes one out.
use mathlib.Core.List.{append_assoc}
use egl_utils_c.Base.{
  ℕ, ◌≡◌, ◌≢◌, refl, sym, ap, ap₂, subst, ◌∙◌, arith, Option, none, some, List, [], ◌∷◌, ◌++◌, inl,
  inr, Contains, Distinct, Contains-append, Contains-append_left, Contains-append_right,
  Distinct-append, Apart-Distinct, ◌>>=◌,
}
use egl_utils_c.Ds.LinkedList.{Heap, update, set_prev, set_next, link_between, unlink}
use egl_utils_c.Ds.LinkedList.Walk.{Linked, Walk, last, Walk-append, append-Walk, last-Contains}
use egl_utils_c.Ds.LinkedList.Splice.{Ring, first, rest, first-rest, Around, front_kept, back_kept}

-- A new node between two parts of a list without repetitions.
Distinct-insert :
    (xs ys : List ℕ) (c : ℕ)
    → Distinct (xs ++ ys)
    → ¬ Contains (xs ++ ys) c
    → Distinct (xs ++ (c ∷ ys))
Distinct-insert xs ys c d fresh =
    let (dx, dy, apart) = Distinct-append xs ys d in
    Apart-Distinct xs (c ∷ ys) dx ((λ k. fresh (Contains-append_right xs ys c k)), dy)
      (λ a in_xs k. elim k [
        | inl e ↦ fresh (Contains-append_left xs ys c (subst (Contains xs) e in_xs))
        | inr in_ys ↦ apart a in_xs in_ys
      ])

Distinct-remove :
    (xs ys : List ℕ) (c : ℕ)
    → Distinct (xs ++ (c ∷ ys))
    → Distinct (xs ++ ys) × ¬ Contains (xs ++ ys) c
Distinct-remove xs ys c d =
    let (dx, (c_fresh, dy), apart) = Distinct-append xs (c ∷ ys) d in
    (
      Apart-Distinct xs ys dx dy (λ a in_xs k. apart a in_xs (inr k)),
      λ k. elim (Contains-append xs ys c k) [
        | inl in_xs ↦ apart c in_xs (inl refl)
        | inr in_ys ↦ c_fresh in_ys
      ],
    )

-- The first node of the ring after the place, or the sentinel, is a node of the ring.
first-Contains : (s : ℕ) (xs ys : List ℕ) → Contains (s ∷ (xs ++ ys)) (first ys s)
first-Contains s xs [] = inl refl
first-Contains s xs (y ∷ ys) = inr (Contains-append_right xs (y ∷ ys) y (inl refl))

last_inside : (s : ℕ) (xs ys : List ℕ) → Contains (s ∷ (xs ++ ys)) (last s xs)
last_inside s xs ys = elim (last-Contains s xs) [
  | inl e ↦ inl e
  | inr in_xs ↦ inr (Contains-append_left xs ys (last s xs) in_xs)
]

apart_from : (l : List ℕ) (a c : ℕ) → Contains l a → ¬ Contains l c → a ≢ c
apart_from l a c inside fresh e = fresh (subst (Contains l) e inside)

abbrev linked_in : Heap → ℕ → ℕ → ℕ → Heap
linked_in h c p n =
    let h1 : Heap = update h c (record (h c) { prev = some p }) in
    let h2 : Heap = update h1 c (record (h1 c) { next = some n }) in
    let h3 : Heap = update h2 p (record (h2 p) { next = some c }) in
    update h3 n (record (h3 n) { prev = some c })

module _ (h : Heap) (c p n : ℕ) (p_ne : p ≢ c) (n_ne : n ≢ c) where
  linked_in-Around : Around h (linked_in h c p n) p n c
  linked_in-Around = record {
    nexts = λ a not_p not_c. ground arith;
    prevs = λ a not_n not_c. ground arith;
  }

  linked_in_before : Linked (linked_in h c p n) p c
  linked_in_before = (ground arith, ground arith)

  linked_in_behind : Linked (linked_in h c p n) c n
  linked_in_behind = (ground arith, ground arith)

abbrev unlinked : Heap → ℕ → ℕ → ℕ → Heap
unlinked h c p n =
    let h1 : Heap = update h p (record (h p) { next = some n }) in
    let h2 : Heap = update h1 n (record (h1 n) { prev = some p }) in
    let h3 : Heap = update h2 c (record (h2 c) { prev = none }) in
    update h3 c (record (h3 c) { next = none })

module _ (h : Heap) (c p n : ℕ) (p_ne : p ≢ c) (n_ne : n ≢ c) where
  unlinked-Around : Around h (unlinked h c p n) p n c
  unlinked-Around = record {
    nexts = λ a not_p not_c. ground arith;
    prevs = λ a not_n not_c. ground arith;
  }

  unlinked_across : Linked (unlinked h c p n) p n
  unlinked_across = (ground arith, ground arith)

  unlink-unlinked :
      (h c).prev ≡ some p → (h c).next ≡ some n → unlink h (some c) ≡ some (unlinked h c p n)
  unfolding unlink
  unlink-unlinked before behind =
      ap₂ (λ p' n'. set_next h p' n' >>= (λ h1. finish h1 (h1 c).next (h1 c).prev)) before behind
      ∙ ap₂ (finish passed) kept_next kept_prev
    where
      -- `unlink` from its second store on.
      finish : Heap → Option ℕ → Option ℕ → Option Heap
      finish h1 n1 p1 = do
        h2 ← set_prev h1 n1 p1
        h3 ← set_prev h2 (some c) none
        set_next h3 (some c) none

      passed : Heap
      passed = update h p (record (h p) { next = some n })

      kept_next : (passed c).next ≡ some n
      kept_next = ground arith

      kept_prev : (passed c).prev ≡ some p
      kept_prev = ground arith

  unlinked_cleared : unlinked h c p n c ≡ record { prev = none; next = none }
  unlinked_cleared = ground arith

-- What both operations read of a ring at a place in it.
pub Ring-at :
    (h : Heap) (s : ℕ) (xs ys : List ℕ)
    → Ring h s (xs ++ ys)
    → Walk h s xs × Linked h (last s xs) (first ys s) × Walk h (first ys s) (rest ys s)
Ring-at h s xs ys (w, d) =
    Walk-append h s xs (first ys s) (rest ys s)
      (subst (Walk h s) (append_assoc xs ys (s ∷ []) ∙ ap (λ l. xs ++ l) (first-rest ys s)) w)

-- The links are those of a ring where they are so before, at and behind the place.
join-Ring :
    (h : Heap) (s : ℕ) (xs ys : List ℕ)
    → Walk h s xs
    → Linked h (last s xs) (first ys s)
    → Walk h (first ys s) (rest ys s)
    → Walk h s ((xs ++ ys) ++ (s ∷ []))
join-Ring h s xs ys front at behind =
    subst (Walk h s) (sym (append_assoc xs ys (s ∷ []) ∙ ap (λ l. xs ++ l) (first-rest ys s)))
      (append-Walk h s xs (first ys s) (rest ys s) front at behind)

-- A node that is in no place of the ring is put in between its two parts.
pub link_between-Ring :
    (h : Heap) (s c : ℕ) (xs ys : List ℕ)
    → Ring h s (xs ++ ys)
    → ¬ Contains (s ∷ (xs ++ ys)) c
    → (h' : Heap) × (link_between h c (some (last s xs)) (some (first ys s)) ≡ some h')
      × Ring h' s (xs ++ (c ∷ ys))
unfolding link_between
link_between-Ring h s c xs ys (w, d) fresh =
    let (front, at, behind) = Ring-at h s xs ys (w, d) in
    let p_ne = apart_from (s ∷ (xs ++ ys)) (last s xs) c (last_inside s xs ys) fresh in
    let n_ne = apart_from (s ∷ (xs ++ ys)) (first ys s) c (first-Contains s xs ys) fresh in
    let h' = linked_in h c (last s xs) (first ys s) in
    let around = linked_in-Around h c (last s xs) (first ys s) p_ne n_ne in
    let link_behind = linked_in_behind h c (last s xs) (first ys s) p_ne n_ne in
    (
      h',
      refl,
      (
        join-Ring h' s xs (c ∷ ys) (front_kept h h' s c xs ys around d fresh front)
            (linked_in_before h c (last s xs) (first ys s) p_ne n_ne)
            (subst (Walk h' c) (sym (first-rest ys s))
              (link_behind, back_kept h h' s c xs ys around d fresh behind)),
        (
          (λ k. elim (Contains-append xs (c ∷ ys) s k) [
            | inl in_xs ↦ d.0 (Contains-append_left xs ys s in_xs)
            | inr (inl e) ↦ fresh (inl (sym e))
            | inr (inr in_ys) ↦ d.0 (Contains-append_right xs ys s in_ys)
          ]),
          Distinct-insert xs ys c d.1 (λ k. fresh (inr k)),
        ),
      ),
    )

-- A node of the ring is taken out of it, and its links are cleared.
pub unlink-Ring :
    (h : Heap) (s c : ℕ) (xs ys : List ℕ)
    → Ring h s (xs ++ (c ∷ ys))
    → (h' : Heap) × (unlink h (some c) ≡ some h')
      × Ring h' s (xs ++ ys)
      × (h' c ≡ record { prev = none; next = none })
unlink-Ring h s c xs ys (w, (s_fresh, d)) =
    let (front, (forth, back), behind) = Ring-at h s xs (c ∷ ys) (w, (s_fresh, d)) in
    let ((forth', back'), behind') = subst (Walk h c) (first-rest ys s) behind in
    let (d', c_fresh) = Distinct-remove xs ys c d in
    let s_out : ¬ Contains (xs ++ ys) s = λ k. elim (Contains-append xs ys s k) [
      | inl in_xs ↦ s_fresh (Contains-append_left xs (c ∷ ys) s in_xs)
      | inr in_ys ↦ s_fresh (Contains-append_right xs (c ∷ ys) s (inr in_ys))
    ] in
    let fresh : ¬ Contains (s ∷ (xs ++ ys)) c = λ k. elim k [
      | inl e ↦ s_fresh (Contains-append_right xs (c ∷ ys) s (inl (sym e)))
      | inr inside ↦ c_fresh inside
    ] in
    let p_ne = apart_from (s ∷ (xs ++ ys)) (last s xs) c (last_inside s xs ys) fresh in
    let n_ne = apart_from (s ∷ (xs ++ ys)) (first ys s) c (first-Contains s xs ys) fresh in
    let h' = unlinked h c (last s xs) (first ys s) in
    let around = unlinked-Around h c (last s xs) (first ys s) p_ne n_ne in
    (
      h',
      unlink-unlinked h c (last s xs) (first ys s) p_ne n_ne back forth',
      (
        join-Ring h' s xs ys (front_kept h h' s c xs ys around (s_out, d') fresh front)
            (unlinked_across h c (last s xs) (first ys s) p_ne n_ne)
            (back_kept h h' s c xs ys around (s_out, d') fresh behind'),
        (s_out, d'),
      ),
      unlinked_cleared h c (last s xs) (first ys s) p_ne n_ne,
    )
