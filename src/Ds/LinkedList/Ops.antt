-- ===== src/Ds/LinkedList/Ops.antt =====
-- The functions of linked_list.h as operations on the list of the nodes.
use mathlib.Core.List.{append-nil}
use egl_utils_c.Base.{
  ℕ, suc, ◌+◌, ◌≡◌, refl, sym, ap, subst, ◌∙◌, arith, true, false, Option, none, some, List, [],
  ◌∷◌, ◌++◌, length, length-append, ◌==◌, inl, inr, ◌⊎◌, add_size, sub_size, Contains, ◌>>=◌,
}
use egl_utils_c.Ds.LinkedList.{Heap, LinkedList, link_between, drop_node, front, back}
use egl_utils_c.Ds.LinkedList.Walk.{last}
use egl_utils_c.Ds.LinkedList.Splice.{Ring, first}
use egl_utils_c.Ds.LinkedList.Valid.{Ring-at, link_between-Ring, unlink-Ring}
use egl_utils_c.Ds.LinkedList.Calls.{
  IsList, Op, to_front, to_back, from_front, from_back, taken, at_front, at_back, apply, Admits,
  Cleared, Refines,
}

-- The list is empty, or has a last node.
abbrev Snoc : List ℕ → Type 0
Snoc xs = (xs ≡ []) ⊎ ((zs : List ℕ) × (y : ℕ) × (xs ≡ zs ++ (y ∷ [])))

Snoc-cases : (xs : List ℕ) → Snoc xs
Snoc-cases [] = inl refl
Snoc-cases (x ∷ xs) = elim (Snoc-cases xs) [
  | inl e ↦ inr ([], x, ap (λ l. x ∷ l) e)
  | inr (zs, y, e) ↦ inr (x ∷ zs, y, ap (λ l. x ∷ l) e)
]

last-snoc : (a : ℕ) (zs : List ℕ) (y : ℕ) → last a (zs ++ (y ∷ [])) ≡ y
last-snoc a [] y = refl
last-snoc a (z ∷ zs) y = last-snoc z zs y

Contains-split : (xs : List ℕ) (c : ℕ) → Contains xs c → (fs bs : List ℕ) × (xs ≡ fs ++ (c ∷ bs))
Contains-split [] c h = absurd h
Contains-split (x ∷ xs) c h = elim h [
  | inl e ↦ ([], xs, ap (λ y. y ∷ xs) (sym e))
  | inr inside ↦ let (fs, bs, e) = Contains-split xs c inside in (x ∷ fs, bs, ap (λ l. x ∷ l) e)
]

module _ (h : Heap) (list : LinkedList) (xs : List ℕ) (v : IsList h list xs) where
  next_of_sentinel : (h list.sentinel).next ≡ some (first xs list.sentinel)
  next_of_sentinel = (Ring-at h list.sentinel [] xs v.ring).1.0

  whole : Ring h list.sentinel (xs ++ [])
  whole = subst (Ring h list.sentinel) (sym (append-nil xs)) v.ring

  prev_of_sentinel : (h list.sentinel).prev ≡ some (last list.sentinel xs)
  prev_of_sentinel = (Ring-at h list.sentinel xs [] whole).1.1

  -- What a push makes of the heap with the new node.
  counted : Option Heap → Option (Option ℕ × Option LinkedList × Heap)
  counted o =
      (o >>= (λ h'.
        let t : Option LinkedList × Heap = (some (record list { len = add_size list.len 1 }), h') in
        some t))
      >>= (λ t. some (none, t.0, t.1))

  to_front-Refines : (c : ℕ) → Admits (to_front c) list.sentinel xs → Refines (to_front c) list h xs
  unfolding apply counted
  to_front-Refines c (fresh, room) =
      let (h', done, ring) = link_between-Ring h list.sentinel c [] xs v.ring fresh in
      (
        none,
        record list { len = add_size list.len 1 },
        h',
        c ∷ xs,
        ap (λ n. counted (link_between h c (some list.sentinel) n)) next_of_sentinel
            ∙ ap counted done,
        record { ring = ring; len = omega (arith, v.len, room); len_lt = omega arith },
        refl,
        (refl, refl),
      )

  to_back-Refines : (c : ℕ) → Admits (to_back c) list.sentinel xs → Refines (to_back c) list h xs
  unfolding apply counted
  to_back-Refines c (fresh, room) =
      let out : ¬ Contains (list.sentinel ∷ (xs ++ [])) c =
        subst (λ l. ¬ Contains (list.sentinel ∷ l) c) (sym (append-nil xs)) fresh in
      let (h', done, ring) = link_between-Ring h list.sentinel c xs [] whole out in
      (
        none,
        record list { len = add_size list.len 1 },
        h',
        xs ++ (c ∷ []),
        ap (λ p. counted (link_between h c p (some list.sentinel))) prev_of_sentinel
            ∙ ap counted done,
        record {
          ring = ring;
          len = omega (arith, v.len, room, length-append xs (c ∷ []));
          len_lt = omega (arith, length-append xs (c ∷ []));
        },
        refl,
        (refl, refl),
      )

  -- A node of the list is unlinked.
  dropped :
      (fs bs : List ℕ) (c : ℕ)
      → xs ≡ fs ++ (c ∷ bs)
      → (list' : LinkedList) × (h' : Heap) × (drop_node list (some c) h ≡ some (some list', h'))
        × IsList h' list' (fs ++ bs)
        × (list'.sentinel ≡ list.sentinel)
        × Cleared h' c
        × ((list.len == 0) ≡ false)
  unfolding drop_node
  dropped fs bs c e =
      let (h', done, ring, cleared) =
        unlink-Ring h list.sentinel c fs bs (subst (Ring h list.sentinel) e v.ring) in
      let size : length xs ≡ length fs + suc (length bs) =
        ap length e ∙ length-append fs (c ∷ bs) in
      let size' = length-append fs bs in
      (
        record list { len = sub_size list.len 1 },
        h',
        rw done refl,
        record {
          ring = ring;
          len = omega (arith, v.len, v.len_lt, size, size');
          len_lt = omega (arith, v.len_lt, size, size');
        },
        refl,
        cleared,
        ground (arith, v.len, size),
      )

  from_front-Refines : (ys : List ℕ) → xs ≡ ys → Refines from_front list h xs
  unfolding apply
  from_front-Refines [] e =
      let empty : (list.len == 0) ≡ true = ground (arith, v.len, ap length e) in
      (none, list, h, [], rw empty refl, subst (IsList h list) e v, refl, inl (e, refl, refl))
  from_front-Refines (y ∷ ys) e =
      let (list', h', done, valid, same, cleared, full) = dropped [] ys y e in
      let at_y : (h list.sentinel).next ≡ some y =
        next_of_sentinel ∙ ap (λ l. some (first l list.sentinel)) e in
      (some y, list', h', ys, rw (full, at_y, done) refl, valid, same, inr (y, e, refl, cleared))

  from_back-Refines : Snoc xs → Refines from_back list h xs
  unfolding apply
  from_back-Refines (inl e) =
      let empty : (list.len == 0) ≡ true = ground (arith, v.len, ap length e) in
      (none, list, h, [], rw empty refl, subst (IsList h list) e v, refl, inl (e, refl, refl))
  from_back-Refines (inr (zs, y, e)) =
      let (list', h', done, valid, same, cleared, full) = dropped zs [] y e in
      let at_y : (h list.sentinel).prev ≡ some y =
        prev_of_sentinel
        ∙ ap (λ l. some (last list.sentinel l)) e
        ∙ ap some (last-snoc list.sentinel zs y) in
      (
        some y,
        list',
        h',
        zs,
        rw (full, at_y, done) refl,
        subst (IsList h' list') (append-nil zs) valid,
        same,
        inr (y, e, refl, cleared),
      )

  taken-Refines : (c : ℕ) → Admits (taken c) list.sentinel xs → Refines (taken c) list h xs
  unfolding apply
  taken-Refines c inside =
      let (fs, bs, e) = Contains-split xs c inside in
      let (list', h', done, valid, same, cleared, full) = dropped fs bs c e in
      (
        none,
        list',
        h',
        fs ++ bs,
        rw (full, done) refl,
        valid,
        same,
        (fs, bs, e, refl, refl, cleared),
      )

  at_front-Refines : (ys : List ℕ) → xs ≡ ys → Refines at_front list h xs
  unfolding apply front
  at_front-Refines [] e =
      let empty : (list.len == 0) ≡ true = ground (arith, v.len, ap length e) in
      (none, list, h, xs, rw empty refl, v, refl, (refl, inl (e, refl)))
  at_front-Refines (y ∷ ys) e =
      let full : (list.len == 0) ≡ false = ground (arith, v.len, ap length e) in
      let at_y : (h list.sentinel).next ≡ some y =
        next_of_sentinel ∙ ap (λ l. some (first l list.sentinel)) e in
      (some y, list, h, xs, rw (full, at_y) refl, v, refl, (refl, inr (y, ys, e, refl)))

  at_back-Refines : Snoc xs → Refines at_back list h xs
  unfolding apply back
  at_back-Refines (inl e) =
      let empty : (list.len == 0) ≡ true = ground (arith, v.len, ap length e) in
      (none, list, h, xs, rw empty refl, v, refl, (refl, inl (e, refl)))
  at_back-Refines (inr (zs, y, e)) =
      let size : length xs ≡ length zs + 1 = ap length e ∙ length-append zs (y ∷ []) in
      let full : (list.len == 0) ≡ false = ground (arith, v.len, size) in
      let at_y : (h list.sentinel).prev ≡ some y =
        prev_of_sentinel
        ∙ ap (λ l. some (last list.sentinel l)) e
        ∙ ap some (last-snoc list.sentinel zs y) in
      (some y, list, h, xs, rw (full, at_y) refl, v, refl, (refl, inr (y, zs, e, refl)))

-- Every call on a valid list, with a node that it admits, follows no NULL link, leaves a valid list
-- with the same sentinel, and does to the list of the nodes what its name says; a node that is taken
-- out has its links cleared, and an empty list gives NULL.
pub apply-Refines :
    (op : Op) (h : Heap) (list : LinkedList) (xs : List ℕ)
    → IsList h list xs
    → Admits op list.sentinel xs
    → Refines op list h xs
apply-Refines (to_front c) h list xs v ok = to_front-Refines h list xs v c ok
apply-Refines (to_back c) h list xs v ok = to_back-Refines h list xs v c ok
apply-Refines from_front h list xs v ok = from_front-Refines h list xs v xs refl
apply-Refines from_back h list xs v ok = from_back-Refines h list xs v (Snoc-cases xs)
apply-Refines (taken c) h list xs v ok = taken-Refines h list xs v c ok
apply-Refines at_front h list xs v ok = at_front-Refines h list xs v xs refl
apply-Refines at_back h list xs v ok = at_back-Refines h list xs v (Snoc-cases xs)
