-- ===== src/Ds/LinkedList/Visit.antt =====
-- The loop D4NP_LIST_FOR_EACH, and d4np_linked_list_init.
use egl_utils_c.Base.{
  ℕ, suc, ◌≡◌, refl, sym, ap, subst, ◌∙◌, arith, true, false, some, List, [], ◌∷◌, length, ◌==◌,
  inl, inr, Contains,
}
use egl_utils_c.Ds.LinkedList.{Heap, LinkedList, for_each, init}
use egl_utils_c.Ds.LinkedList.Walk.{Walk}
use egl_utils_c.Ds.LinkedList.Splice.{first, rest, first-rest}
use egl_utils_c.Ds.LinkedList.Valid.{Ring-at}
use egl_utils_c.Ds.LinkedList.Calls.{IsList}

for_each_from :
    (h : Heap) (s : ℕ) (xs : List ℕ)
    → Walk h (first xs s) (rest xs s)
    → ¬ Contains xs s
    → for_each (suc (length xs)) h s (some (first xs s)) ≡ some xs
unfolding for_each
for_each_from h s [] w fresh = let found : (s == s) ≡ true = ground arith in rw found refl
for_each_from h s (x ∷ xs) w fresh =
    let other : (x == s) ≡ false = ground (arith, λ (e : x ≡ s). fresh (inl (sym e))) in
    let ((forth, back'), w') = subst (Walk h x) (first-rest xs s) w in
    rw (other, forth, for_each_from h s xs w' (λ k. fresh (inr k))) refl

-- The loop of D4NP_LIST_FOR_EACH over a valid list visits its nodes in order, and ends within one
-- round more than there are nodes.
pub for_each-visits :
    (h : Heap) (list : LinkedList) (xs : List ℕ)
    → IsList h list xs
    → for_each (suc (length xs)) h list.sentinel (h list.sentinel).next ≡ some xs
for_each-visits h list xs v =
    let (_, (forth, _), w) = Ring-at h list.sentinel [] xs v.ring in
    ap (for_each (suc (length xs)) h list.sentinel) forth
    ∙ for_each_from h list.sentinel xs w v.ring.1.0

-- d4np_linked_list_init makes an empty list of any object and heap.
pub init-IsList :
    (h : Heap) (list : LinkedList)
    → (list' : LinkedList) × (h' : Heap) × (init (some list) h ≡ (some list', h'))
      × IsList h' list' []
      × (list'.sentinel ≡ list.sentinel)
unfolding init
init-IsList h list =
    let found : (list.sentinel == list.sentinel) ≡ true = ground arith in
    (
      _,
      _,
      refl,
      record {
        ring = ((rw found (refl, refl), tt), ((λ k. k), tt));
        len = refl;
        len_lt = omega arith;
      },
      refl,
    )
