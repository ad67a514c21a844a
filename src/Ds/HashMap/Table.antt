-- ===== src/Ds/HashMap/Table.antt =====
-- A hash map as a table: the states, keys and values of its slots, and the paths that probing takes.
use native.Mathlib.Nat.{mod-eq_of_lt, add-mod_right}
use egl_utils_c.Base.{
  ℕ, zero, suc, ◌+◌, ◌-◌, ◌%◌, ◌≤◌, ◌<◌, ◌≡◌, ◌≢◌, sym, ap, ◌∙◌, arith, Bool, true, false, Option,
  none, some, Bytes, ◌==◌, ◌&&◌, if◌then◌else◌, inl, inr, ◌⊎◌, mod-ne_of_near,
}
use egl_utils_c.Ds.HashMap.State.{HashMap}
use egl_utils_c.Ds.HashMap.Slots.{state, key_at, value_at}
use egl_utils_c.Ds.HashMap.Count.{IsState}

pub record Table : Type 0 where
  pub size : ℕ
  pub st : ℕ → ℕ
  pub key : ℕ → Bytes
  pub val : ℕ → Bytes

abbrev pub table : {S : Type 0} → HashMap S → Table
table m = record { size = m.capacity; st = state m; key = key_at m; val = value_at m }

-- What the callbacks of a map must be: an equivalence, and a hash that is the same on equal keys.
pub record IsKeyEq (hash : Bytes → ℕ) (key_eq : Bytes → Bytes → Bool) : Type 0 where
  pub eq_refl : (a : Bytes) → key_eq a a ≡ true
  pub eq_sym : (a b : Bytes) → key_eq a b ≡ true → key_eq b a ≡ true
  pub eq_trans : (a b c : Bytes) → key_eq a b ≡ true → key_eq b c ≡ true → key_eq a c ≡ true
  pub hash_congr : (a b : Bytes) → key_eq a b ≡ true → hash a ≡ hash b

-- The `p`-th slot on the path from `s`.
abbrev pub pos : ℕ → ℕ → ℕ → ℕ
pos size s p = (s + p) % size

pub pos_all : (size s e : ℕ) → s < size → e < size → (p : ℕ) × (p < size) × (pos size s p ≡ e)
pos_all size s e hs he = elim order [
  | inl le ↦
      let sum : s + (e - s) ≡ e = omega arith in
      (e - s, omega arith, ap (λ n. n % size) sum ∙ mod-eq_of_lt he)
  | inr gt ↦
      let sum : s + (e + size - s) ≡ e + size = omega arith in
      (e + size - s, omega arith, ap (λ n. n % size) sum ∙ add-mod_right e size ∙ mod-eq_of_lt he)
]
  where
    order : (s ≤ e) ⊎ (e < s)
    order = omega arith

pub pos_once : (size s p q : ℕ) → p < size → q < size → pos size s p ≡ pos size s q → p ≡ q
pos_once size s p q hp hq e = elim order [
  | inl (inl lt) ↦ absurd (mod-ne_of_near s size p q lt (omega arith) e)
  | inl (inr gt) ↦ absurd (mod-ne_of_near s size q p gt (omega arith) (sym e))
  | inr same ↦ same
]
  where
    order : ((p < q) ⊎ (q < p)) ⊎ (p ≡ q)
    order = omega arith

-- The path from `s` comes to slot `j`, through slots that are not empty.
pub record Reaches (t : Table) (s j : ℕ) : Type 0 where
  pub steps : ℕ
  pub steps_lt : steps < t.size
  pub there : pos t.size s steps ≡ j
  pub full : (q : ℕ) → q < steps → t.st (pos t.size s q) ≢ 0

-- The invariant of the table: every key is on the path from its hash, and no key is there twice.
pub record IsTable (hash : Bytes → ℕ) (key_eq : Bytes → Bytes → Bool) (t : Table) : Type 0 where
  pub states : (j : ℕ) → j < t.size → IsState (t.st j)
  pub chain : (j : ℕ) → j < t.size → t.st j ≡ 1 → Reaches t (hash (t.key j) % t.size) j
  pub unique :
      (i j : ℕ)
      → i < t.size
      → j < t.size
      → t.st i ≡ 1
      → t.st j ≡ 1
      → key_eq (t.key i) (t.key j) ≡ true
      → i ≡ j

-- No slot has the key.
abbrev pub Lacks : (Bytes → Bytes → Bool) → Table → Bytes → Type 0
Lacks key_eq t q = (j : ℕ) → j < t.size → t.st j ≡ 1 → key_eq (t.key j) q ≡ false

-- What `locate` must give: the slot of the key, or a slot that is free for it.
abbrev pub Hit : (Bytes → Bytes → Bool) → Table → Bytes → ℕ → Type 0
Hit key_eq t q i = (i < t.size) × (t.st i ≡ 1) × (key_eq (t.key i) q ≡ true)

pub record Miss (hash : Bytes → ℕ) (key_eq : Bytes → Bytes → Bool) (t : Table) (q : Bytes) (i : ℕ)
    : Type 0 where
  pub inside : i < t.size
  pub vacant : t.st i ≢ 1
  pub lacks : Lacks key_eq t q
  pub reached : Reaches t (hash q % t.size) i

-- The value of a key by a search through all the slots.
unfoldable pub lookup_below : (Bytes → Bytes → Bool) → Table → Bytes → ℕ → Option Bytes
lookup_below key_eq t q zero = none
lookup_below key_eq t q (suc n) =
    let rest = lookup_below key_eq t q n in
    if t.st n == 1 && key_eq (t.key n) q then some (t.val n) else rest

unfoldable pub lookup : (Bytes → Bytes → Bool) → Table → Bytes → Option Bytes
unfolding lookup_below
lookup key_eq t q = lookup_below key_eq t q t.size
