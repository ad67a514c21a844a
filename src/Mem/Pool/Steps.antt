-- ===== src/Mem/Pool/Steps.antt =====
-- Any sequence of calls on one pool, with the callers writing into the slots they hold.
use egl_utils_c.Base.{
  Contains, ℕ, ◌≤◌, ◌≡◌, sym, ap, subst, ◌∙◌, arith, Option, none, some, List, ◌∷◌, Bytes, length,
  inl, inr, overwrite, write_at,
}
use egl_utils_c.Mem.Pool.{Layout, IsLayout, Pool, alloc, release}
use egl_utils_c.Mem.Pool.Slots.{remove}
use egl_utils_c.Mem.Pool.Valid.{IsValid, Handed, alloc-Handed, written-IsValid, release-IsValid}

-- A step of the pool and of the slots that are handed out.
pub data Step {S : Type 0} (layout : Layout) (p : Pool S) (live : List ℕ)
    : Pool S → List ℕ → Type 0 where
  handed :
      {p' : Pool S} (x : ℕ)
      → alloc layout (some p) ≡ some (some x, some p')
      → Step layout p live p' (x ∷ live)
  refused :
      {p' : Pool S} → alloc layout (some p) ≡ some (none, some p') → Step layout p live p' live
  returned :
      {p' : Pool S} (x : ℕ)
      → Contains live x
      → release layout (some p) (some x) ≡ some (some p')
      → Step layout p live p' (remove x live)
  wrote :
      (x : ℕ) (src block : Bytes)
      → Contains live x
      → length src ≤ p.stride
      → write_at p.base x src ≡ some block
      → Step layout p live (record p { base = some block }) live

pub data Reach {S : Type 0} (layout : Layout) (p : Pool S) (live : List ℕ)
    : Pool S → List ℕ → Type 0 where
  here : Reach layout p live p live
  next :
      {q r : Pool S} {k l : List ℕ}
      → Reach layout p live q k
      → Step layout q k r l
      → Reach layout p live r l

write_at-overwrite :
    (b src c : Bytes) (off : ℕ) → write_at (some b) off src ≡ some c → c ≡ overwrite off src b
unfolding write_at
write_at-overwrite b src c off e = ground arith

module _ {S : Type 0} (layout : Layout) (lawful : IsLayout layout) where
  handed-IsValid :
      (p p' : Pool S) (live : List ℕ) (x : ℕ) (r : Option ℕ × Option (Pool S))
      → Handed layout p live r
      → r ≡ (some x, some p')
      → IsValid layout p' (x ∷ live)
  handed-IsValid p p' live x r (inl (_, nothing, _)) e =
      absurd (let got : r.0 ≡ some x = ap (λ t. t.0) e in cc)
  handed-IsValid p p' live x r (inr (y, q, at_y, at_q, _, _, _, _, valid)) e =
      let got : r.0 ≡ some x = ap (λ t. t.0) e in
      let left : r.1 ≡ some p' = ap (λ t. t.1) e in
      let same_slot : y ≡ x = cc in
      let same_pool : q ≡ p' = cc in
      subst (λ z. IsValid layout p' (z ∷ live)) same_slot
        (subst (λ m. IsValid layout m (y ∷ live)) same_pool valid)

  refused-IsValid :
      (p p' : Pool S) (live : List ℕ) (r : Option ℕ × Option (Pool S))
      → IsValid layout p live
      → Handed layout p live r
      → r ≡ (none, some p')
      → IsValid layout p' live
  refused-IsValid p p' live r v (inl (_, _, same)) e =
      let left : r.1 ≡ some p' = ap (λ t. t.1) e in
      let same_pool : p ≡ p' = cc in subst (λ m. IsValid layout m live) same_pool v
  refused-IsValid p p' live r v (inr (y, q, at_y, _, _, _, _, _, _)) e =
      absurd (let got : r.0 ≡ none = ap (λ t. t.0) e in cc)

  step-IsValid :
      {p q : Pool S} {live k : List ℕ}
      → IsValid layout p live
      → Step layout p live q k
      → IsValid layout q k
  step-IsValid {p} {live = live} v (handed {p'} x e) =
      let (r, done, h) = alloc-Handed layout p live v in
      let same : r ≡ (some x, some p') = cc in handed-IsValid p p' live x r h same
  step-IsValid {p} {live = live} v (refused {p'} e) =
      let (r, done, h) = alloc-Handed layout p live v in
      let same : r ≡ (none, some p') = cc in refused-IsValid p p' live r v h same
  step-IsValid {p} {live = live} v (returned {p'} x h e) =
      let (q, done, _, valid) = release-IsValid layout p live v lawful x h in
      let same : q ≡ p' = cc in subst (λ m. IsValid layout m (remove x live)) same valid
  step-IsValid {p} {live = live} v (wrote x src block h fits e) =
      let whole : write_at (some v.block) x src ≡ some block =
        ap (λ o. write_at o x src) (sym v.stored) ∙ e in
      subst (λ c. IsValid layout (record p { base = some c }) live)
        (sym (write_at-overwrite v.block src block x whole))
        (written-IsValid layout p live v x src h fits)

  -- Whatever the callers do with a valid pool, calling alloc, freeing slots they hold and writing
  -- into those, the pool stays valid: the slots that are handed out are distinct slots of the block,
  -- no link runs through them, and the slots on the free list are all the others.
  pub reach-IsValid :
      {p : Pool S} {live : List ℕ} {q : Pool S} {k : List ℕ}
      → IsValid layout p live
      → Reach layout p live q k
      → IsValid layout q k
  reach-IsValid v here = v
  reach-IsValid v (next r st) = step-IsValid (reach-IsValid v r) st
