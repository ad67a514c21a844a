-- ===== src/Base/Outcome.antt =====
-- A call that may run into undefined behaviour: `none` stands for it. `Ensures` is total
-- correctness: the call returns, and its result satisfies the predicate.
use mathlib.Core.Path.{◌≡◌, refl}
use mathlib.Core.Option.{Option, none, some}

infixl 5 ◌>>=◌
abbrev pub ◌>>=◌ {ℓ κ} : {A : Type ℓ} {B : Type κ} → Option A → (A → Option B) → Option B
none >>= f = none
some a >>= f = f a

abbrev pub Ensures {ℓ} : {A : Type ℓ} → (A → Type 0) → Option A → Type 0
Ensures P none = ⊥
Ensures P (some a) = P a

pub Ensures-some {ℓ} :
    {A : Type ℓ} (P : A → Type 0) (o : Option A) → Ensures P o → (a : A) × (o ≡ some a) × P a
Ensures-some P none h = absurd h
Ensures-some P (some a) h = (a, refl, h)
