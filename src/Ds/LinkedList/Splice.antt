-- ===== src/Ds/LinkedList/Splice.antt =====
-- What a change of the links around one place leaves of the ring of a list.
use egl_utils_c.Base.{
  ℕ, ◌≡◌, ◌≢◌, refl, sym, ap, subst, ◌∙◌, List, [], ◌∷◌, ◌++◌, inl, inr, Contains, Distinct,
  Contains-append, Contains-append_left, Contains-append_right, Distinct-append,
}
use egl_utils_c.Ds.LinkedList.{Heap}
use egl_utils_c.Ds.LinkedList.Walk.{
  Walk, last, sources, sources-Contains, last_fresh, last-Contains, Walk-kept, sources-snoc,
}

-- The ring of the list with the sentinel `s`: through the nodes and back.
abbrev pub Ring : Heap → ℕ → List ℕ → Type 0
Ring h s xs = Walk h s (xs ++ (s ∷ [])) × Distinct (s ∷ xs)

-- The first node of `xs`, or the sentinel.
abbrev pub first : List ℕ → ℕ → ℕ
first [] s = s
first (x ∷ xs) s = x

-- The nodes after the first, and the sentinel.
abbrev pub rest : List ℕ → ℕ → List ℕ
rest [] s = []
rest (x ∷ xs) s = xs ++ (s ∷ [])

pub first-rest : (xs : List ℕ) (s : ℕ) → xs ++ (s ∷ []) ≡ first xs s ∷ rest xs s
first-rest [] s = refl
first-rest (x ∷ xs) s = refl

-- Only the links between `p` and `n`, and those of the node `c`, change.
pub record Around (h h' : Heap) (p n c : ℕ) : Type 0 where
  pub nexts : (a : ℕ) → a ≢ p → a ≢ c → (h' a).next ≡ (h a).next
  pub prevs : (a : ℕ) → a ≢ n → a ≢ c → (h' a).prev ≡ (h a).prev

module _ (h h' : Heap) (s c : ℕ) (xs ys : List ℕ) (around : Around h h' (last s xs) (first ys s) c)
    (d : Distinct (s ∷ (xs ++ ys))) (fresh : ¬ Contains (s ∷ (xs ++ ys)) c) where
  front-Distinct : Distinct (s ∷ xs)
  front-Distinct = ((λ k. d.0 (Contains-append_left xs ys s k)), (Distinct-append xs ys d.1).0)

  in_front : (a : ℕ) → Contains (s ∷ xs) a → Contains (s ∷ (xs ++ ys)) a
  in_front a k = elim k [ inl e ↦ inl e | inr l ↦ inr (Contains-append_left xs ys a l) ]

  -- No node of `xs` is the one after the place.
  first_not_front : (a : ℕ) → Contains xs a → a ≢ first ys s
  first_not_front = go ys refl
    where
      go : (zs : List ℕ) → zs ≡ ys → (a : ℕ) → Contains xs a → a ≢ first ys s
      go [] e a k same =
          let at_s : a ≡ s = same ∙ ap (λ l. first l s) (sym e) in
          d.0 (Contains-append_left xs ys s (subst (Contains xs) at_s k))
      go (z ∷ zs) e a k same =
          let at_z : a ≡ z = same ∙ ap (λ l. first l s) (sym e) in
          (Distinct-append xs ys d.1).2 a k (subst (λ l. Contains l a) e (inl at_z))

  pub front_kept : Walk h s xs → Walk h' s xs
  front_kept =
      Walk-kept h h' s xs
        (λ a k.
          around.nexts a (λ e. last_fresh s xs front-Distinct (subst (Contains (sources s xs)) e k))
            (λ e.
              fresh (subst (Contains (s ∷ (xs ++ ys))) e (in_front a (sources-Contains s xs a k)))))
        (λ a k.
          around.prevs a (first_not_front a k)
            (λ e. fresh (subst (Contains (s ∷ (xs ++ ys))) e (in_front a (inr k)))))

-- The same for the nodes behind the place, by cases on them.
pub back_kept :
    (h h' : Heap) (s c : ℕ) (xs ys : List ℕ)
    → Around h h' (last s xs) (first ys s) c
    → Distinct (s ∷ (xs ++ ys))
    → ¬ Contains (s ∷ (xs ++ ys)) c
    → Walk h (first ys s) (rest ys s)
    → Walk h' (first ys s) (rest ys s)
back_kept h h' s c xs [] around d fresh w = tt
back_kept h h' s c xs (y ∷ ys) around (s_fresh, d) fresh w =
    let (dx, (y_fresh, dy), apart) = Distinct-append xs (y ∷ ys) d in
    let last_out : (a : ℕ) → Contains (y ∷ ys) a → a ≢ last s xs = λ a k e.
      elim (subst (Contains (s ∷ xs)) (sym e) (last-Contains s xs)) [
        | inl at_s ↦
            s_fresh (Contains-append_right xs (y ∷ ys) s (subst (Contains (y ∷ ys)) at_s k))
        | inr in_xs ↦ apart a in_xs k
      ] in
    let behind : (a : ℕ) → Contains (y ∷ ys) a → a ≢ c = λ a k e.
      fresh
        (subst (Contains (s ∷ (xs ++ (y ∷ ys)))) e (inr (Contains-append_right xs (y ∷ ys) a k))) in
    Walk-kept h h' y (ys ++ (s ∷ []))
      (λ a k.
        let inside = sources-snoc y s ys a k in
        around.nexts a (last_out a inside) (behind a inside))
      (λ a k. elim (Contains-append ys (s ∷ []) a k) [
        | inl in_ys ↦
            around.prevs a (λ e. y_fresh (subst (Contains ys) e in_ys)) (behind a (inr in_ys))
        | inr (inl at_s) ↦
            around.prevs a (λ e. s_fresh (Contains-append_right xs (y ∷ ys) s (inl (sym at_s ∙ e))))
              (λ e. fresh (inl (sym e ∙ at_s)))
        | inr (inr nothing) ↦ absurd nothing
      ])
      w
