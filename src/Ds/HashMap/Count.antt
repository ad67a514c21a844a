-- ===== src/Ds/HashMap/Count.antt =====
-- How many of the first slots have a given state.
use egl_utils_c.Base.{
  ℕ, zero, suc, ◌+◌, ◌<◌, ◌≡◌, ◌≢◌, refl, ap, ap₂, arith, Bool, true, false, ◌==◌, inl, inr, ◌⊎◌,
}

abbrev pub one_if : Bool → ℕ
one_if true = 1
one_if false = 0

unfoldable pub count : ℕ → (ℕ → ℕ) → ℕ → ℕ
count x f zero = 0
count x f (suc n) = count x f n + one_if (f n == x)

pub count_cong :
    (x : ℕ) (f g : ℕ → ℕ) (n : ℕ) → ((j : ℕ) → j < n → f j ≡ g j) → count x f n ≡ count x g n
unfolding count
count_cong x f g zero h = refl
count_cong x f g (suc n) h =
    ap₂ (λ (a b : ℕ). a + one_if (b == x)) (count_cong x f g n (λ j lt. h j (omega arith)))
      (h n (omega arith))

-- A change of one slot moves the count by what that slot counts.
pub count_change :
    (x : ℕ) (f g : ℕ → ℕ) (n i : ℕ)
    → i < n
    → ((j : ℕ) → j ≢ i → g j ≡ f j)
    → count x g n + one_if (f i == x) ≡ count x f n + one_if (g i == x)
unfolding count
count_change x f g zero i lt same = absurd (omega arith)
count_change x f g (suc n) i lt same = elim (order i n lt) [
  | inl before ↦
      let here : one_if (g n == x) ≡ one_if (f n == x) =
        ap (λ k. one_if (k == x)) (same n (omega arith)) in
      omega (arith, count_change x f g n i before same, here)
  | inr at_end ↦
      let rest : count x g n ≡ count x f n = count_cong x g f n (λ j below. same j (omega arith)) in
      let old : one_if (f i == x) ≡ one_if (f n == x) = ap (λ k. one_if (f k == x)) at_end in
      let new : one_if (g i == x) ≡ one_if (g n == x) = ap (λ k. one_if (g k == x)) at_end in
      omega (arith, rest, old, new)
]
  where
    order : (i n : ℕ) → i < suc n → (i < n) ⊎ (i ≡ n)
    order i n lt = omega arith

pub count-zero : (x : ℕ) (f : ℕ → ℕ) (n : ℕ) → ((j : ℕ) → j < n → f j ≢ x) → count x f n ≡ 0
unfolding count
count-zero x f zero h = refl
count-zero x f (suc n) h =
    let miss : f n ≢ x = h n (omega arith) in
    let none_here : (f n == x) ≡ false = ground arith in
    rw none_here (omega (arith, count-zero x f n (λ j lt. h j (omega arith))))

-- Every state is empty, occupied or deleted.
abbrev pub IsState : ℕ → Type 0
IsState s = (s ≡ 0) ⊎ ((s ≡ 1) ⊎ (s ≡ 2))

-- Where fewer slots than there are count as occupied or deleted, one is empty.
pub empty_slot :
    (f : ℕ → ℕ) (n : ℕ)
    → ((j : ℕ) → j < n → IsState (f j))
    → count 1 f n + count 2 f n < n
    → (e : ℕ) × (e < n) × (f e ≡ 0)
unfolding count
empty_slot f zero states h = absurd (omega arith)
empty_slot f (suc n) states h = elim (states n (omega arith)) [
  | inl empty ↦ (n, omega arith, empty)
  | inr full ↦
      let (e, lt, at_e) = empty_slot f n (λ j below. states j (omega arith)) (smaller full) in
      (e, omega arith, at_e)
]
  where
    smaller : (f n ≡ 1) ⊎ (f n ≡ 2) → count 1 f n + count 2 f n < n
    smaller (inl one) =
        let hit : one_if (f n == 1) ≡ 1 = ap (λ k. one_if (k == 1)) one in omega (arith, h, hit)
    smaller (inr two) =
        let hit : one_if (f n == 2) ≡ 1 = ap (λ k. one_if (k == 2)) two in omega (arith, h, hit)
