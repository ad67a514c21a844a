-- ===== src/Mem/Pool/Threaded.antt =====
-- The loop of d4np_pool_init links the slots in order.
use egl_utils_c.Base.{
  Contains, Distinct, ℕ, zero, suc, ◌+◌, ◌*◌, ◌≤◌, ◌<◌, ◌≡◌, refl, ap, subst, ◌∙◌, arith, Option,
  some, List, [], ◌∷◌, Bytes, length, inl, inr, size_mod, mul_size, mul_size_exact, overwrite,
  length-overwrite, next_slot-le,
}
use egl_utils_c.Mem.Pool.{Layout, IsLayout, pointer_size, thread}
use egl_utils_c.Mem.Pool.Slots.{AreSlots}
use egl_utils_c.Mem.Pool.Links.{
  Chain, Chain-overwrite, store_link-overwrite, load_link-overwrite_self,
}

-- The offsets of `k` slots from the `i`-th on.
abbrev pub offsets : ℕ → ℕ → ℕ → List ℕ
offsets stride i zero = []
offsets stride i (suc k) = i * stride ∷ offsets stride (suc i) k

pub length-offsets : (stride i k : ℕ) → length (offsets stride i k) ≡ k
length-offsets stride i zero = refl
length-offsets stride i (suc k) = ap suc (length-offsets stride (suc i) k)

offsets_from :
    (stride i k x : ℕ)
    → Contains (offsets stride i k) x
    → (j : ℕ) × (i ≤ j) × (j < i + k) × (x ≡ j * stride)
offsets_from stride i zero x h = absurd h
offsets_from stride i (suc k) x h = elim h [
  | inl e ↦ (i, omega arith, omega arith, e)
  | inr rest ↦
      let (j, ge, lt, e) = offsets_from stride (suc i) k x rest in (j, omega arith, omega arith, e)
]

pub offsets-AreSlots : (stride i k n : ℕ) → i + k ≡ n → AreSlots stride n (offsets stride i k)
offsets-AreSlots stride i k n sum x h =
    let (j, ge, lt, e) = offsets_from stride i k x h in (j, omega arith, e)

offsets_fresh :
    (stride i j k : ℕ) → 0 < stride → j < i → ¬ Contains (offsets stride i k) (j * stride)
offsets_fresh stride i j k pos lt h =
    let (l, ge, _, e) = offsets_from stride i k (j * stride) h in
    absurd (omega (arith, next_slot-le stride j l (omega arith)))

pub offsets-Distinct : (stride i k : ℕ) → 0 < stride → Distinct (offsets stride i k)
offsets-Distinct stride i zero pos = tt
offsets-Distinct stride i (suc k) pos =
    (offsets_fresh stride (suc i) i k pos (omega arith), offsets-Distinct stride (suc i) k pos)

module _ (layout : Layout) (lawful : IsLayout layout) (stride n : ℕ) (wide : pointer_size ≤ stride)
    (fits : n * stride < size_mod) where
  -- The loop turns a chain of the slots from `i` on into one of all slots.
  pub thread-Chain :
      (i k : ℕ) (head : Option ℕ) (b : Bytes)
      → length b ≡ n * stride
      → i + k ≡ n
      → Chain layout b head (offsets stride i k)
      → (r : Option ℕ × Bytes) × (thread layout stride i head b ≡ some r)
        × (length r.1 ≡ n * stride)
        × Chain layout r.1 r.0 (offsets stride 0 n)
  unfolding thread
  thread-Chain zero k head b len sum c =
      let all : k ≡ n = omega arith in
      ((head, b), refl, len, subst (λ m. Chain layout b head (offsets stride 0 m)) all c)
  thread-Chain (suc i) k head b len sum c =
      let room : i * stride + stride ≤ n * stride = next_slot-le stride i n (omega arith) in
      let exact : mul_size i stride ≡ i * stride = mul_size_exact i stride (omega arith) in
      let b' = overwrite (i * stride) (layout.encode head) b in
      let linked : Chain layout b' (some (i * stride)) (offsets stride i (suc k)) = (
        refl,
        (
          head,
          load_link-overwrite_self layout lawful stride b i head (omega arith),
          Chain-overwrite layout stride wide n b i (layout.encode head) head
              (offsets stride (suc i) k) (omega (arith, lawful.encode_size head))
              (offsets-AreSlots stride (suc i) k n sum)
              (offsets_fresh stride (suc i) i k (omega arith) (omega arith)) c,
        ),
      ) in
      let next =
        thread-Chain i (suc k) (some (i * stride)) b'
          (length-overwrite (i * stride) (layout.encode head) b ∙ len) (omega arith) linked in
      let step : thread layout stride (suc i) head b
          ≡ thread layout stride i (some (i * stride)) b' =
        rw (exact, store_link-overwrite layout lawful b (i * stride) head (omega arith)) refl in
      (next.0, step ∙ next.1, next.2, next.3)
