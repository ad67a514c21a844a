-- ===== src/Base/Block.antt =====
-- A block of memory is the list of its bytes: each block has one owner, so the address is left
-- out. `memcpy` into and out of a block is bounds-checked, and `none` is undefined behaviour.
use Prim.Native.Nat.{ℕ, zero, suc, ◌+◌, ◌-◌, ◌*◌, ◌≤◌, ◌<◌}
use mathlib.Core.Path.{◌≡◌, refl, sym, ap, ◌∙◌}
use mathlib.Core.Logic.{◌≢◌, ◌⊎◌, inl, inr}
use mathlib.Core.List.{List, [], ◌∷◌}
use mathlib.Core.Option.{Option, none, some}
use native.Mathlib.Omega.{arith}
use egl_utils_c.Base.Tests.{leb, if◌then◌else◌, le→leb}
use egl_utils_c.Base.Outcome.{◌>>=◌}
use egl_utils_c.Base.Lists.{length, take, drop, take-drop-take, length-take, length-drop}

abbrev pub Bytes : Type 0
Bytes = List ℕ

-- The bytes of `src` laid over a block from `off` on.
unfoldable pub overwrite : ℕ → Bytes → Bytes → Bytes
overwrite off src [] = []
overwrite zero [] (b ∷ bs) = b ∷ bs
overwrite zero (x ∷ src) (b ∷ bs) = x ∷ overwrite zero src bs
overwrite (suc off) src (b ∷ bs) = b ∷ overwrite off src bs

-- memcpy(block + off, src, |src|)
unfoldable pub write_at : Option Bytes → ℕ → Bytes → Option Bytes
unfolding overwrite
write_at none off src = none
write_at (some b) off src =
    if leb (off + length src) (length b) then some (overwrite off src b) else none

-- memcpy(out, block + off, n)
unfoldable pub read_at : Option Bytes → ℕ → ℕ → Option Bytes
read_at none off n = none
read_at (some b) off n = if leb (off + n) (length b) then some (take n (drop off b)) else none

-- A copy of `size` bytes at `off` to `out`, skipped where `out` is NULL.
unfoldable pub copy_out : Option Bytes → Option Bytes → ℕ → ℕ → Option (Option Bytes)
unfolding write_at read_at
copy_out none block off size = some none
copy_out (some out) block off size = do
  src ← read_at block off size
  out' ← write_at (some out) 0 src
  some (some out')

pub length-overwrite : (off : ℕ) (src b : Bytes) → length (overwrite off src b) ≡ length b
unfolding overwrite
length-overwrite off src [] = refl
length-overwrite zero [] (b ∷ bs) = refl
length-overwrite zero (x ∷ src) (b ∷ bs) = ap suc (length-overwrite zero src bs)
length-overwrite (suc off) src (b ∷ bs) = ap suc (length-overwrite off src bs)

pub take-overwrite : (n off : ℕ) (src b : Bytes) → n ≤ off → take n (overwrite off src b) ≡ take n b
unfolding overwrite
take-overwrite n off src [] h = refl
take-overwrite zero off src (b ∷ bs) h = refl
take-overwrite (suc n) zero src (b ∷ bs) h = absurd (omega arith)
take-overwrite (suc n) (suc off) src (b ∷ bs) h =
    ap (λ l. b ∷ l) (take-overwrite n off src bs (omega arith))

pub drop-overwrite_before :
    (k off : ℕ) (src b : Bytes)
    → k ≤ off
    → drop k (overwrite off src b) ≡ overwrite (off - k) src (drop k b)
unfolding overwrite
drop-overwrite_before zero off src b h = ap (λ o. overwrite o src b) (omega arith)
drop-overwrite_before (suc k) off src [] h = refl
drop-overwrite_before (suc k) zero src (b ∷ bs) h = absurd (omega arith)
drop-overwrite_before (suc k) (suc off) src (b ∷ bs) h =
    drop-overwrite_before k off src bs (omega arith)
    ∙ ap (λ o. overwrite o src (drop k bs)) (omega arith)

pub drop-overwrite_after :
    (k off : ℕ) (src b : Bytes) → off + length src ≤ k → drop k (overwrite off src b) ≡ drop k b
unfolding overwrite
drop-overwrite_after k off src [] h = refl
drop-overwrite_after k zero [] (b ∷ bs) h = refl
drop-overwrite_after zero zero (x ∷ src) (b ∷ bs) h = absurd (omega arith)
drop-overwrite_after (suc k) zero (x ∷ src) (b ∷ bs) h =
    drop-overwrite_after k zero src bs (omega arith)
drop-overwrite_after zero (suc off) src (b ∷ bs) h = absurd (omega arith)
drop-overwrite_after (suc k) (suc off) src (b ∷ bs) h =
    drop-overwrite_after k off src bs (omega arith)

take_front-overwrite :
    (src b : Bytes) → length src ≤ length b → take (length src) (overwrite zero src b) ≡ src
unfolding overwrite
take_front-overwrite [] [] h = refl
take_front-overwrite [] (b ∷ bs) h = refl
take_front-overwrite (x ∷ src) [] h = absurd (omega arith)
take_front-overwrite (x ∷ src) (b ∷ bs) h =
    ap (λ l. x ∷ l) (take_front-overwrite src bs (omega arith))

pub take-drop-overwrite :
    (off : ℕ) (src b : Bytes)
    → off + length src ≤ length b
    → take (length src) (drop off (overwrite off src b)) ≡ src
unfolding overwrite
take-drop-overwrite zero src b h = take_front-overwrite src b (omega arith)
take-drop-overwrite (suc off) src [] h = absurd (omega arith)
take-drop-overwrite (suc off) src (b ∷ bs) h = take-drop-overwrite off src bs (omega arith)

-- The `i`-th element of a block of elements of `size` bytes.
abbrev pub slot : ℕ → Bytes → ℕ → Bytes
slot size b i = take size (drop (i * size) b)

pub slot-overwrite_self :
    (size : ℕ) (b : Bytes) (i : ℕ) (src : Bytes)
    → length src ≡ size
    → i * size + size ≤ length b
    → slot size (overwrite (i * size) src b) i ≡ src
slot-overwrite_self size b i src e h =
    ap (λ n. take n (drop (i * size) (overwrite (i * size) src b))) (omega arith)
    ∙ take-drop-overwrite (i * size) src b (omega arith)

pub next_slot-le : (size i j : ℕ) → i < j → i * size + size ≤ j * size
next_slot-le size i j h = grind arith

pub slot-overwrite_ne :
    (size : ℕ) (b : Bytes) (i j : ℕ) (src : Bytes)
    → length src ≡ size
    → i ≢ j
    → slot size (overwrite (j * size) src b) i ≡ slot size b i
slot-overwrite_ne size b i j src e ne = elim order [
  | inl lt ↦
      ap (take size) (drop-overwrite_before (i * size) (j * size) src b (before lt))
      ∙ take-overwrite size (j * size - i * size) src (drop (i * size) b) (gap lt)
  | inr gt ↦ ap (take size) (drop-overwrite_after (i * size) (j * size) src b (after gt))
]
  where
    order : (i < j) ⊎ (j < i)
    order = omega arith

    before : i < j → i * size ≤ j * size
    before lt = omega (arith, next_slot-le size i j lt)

    gap : i < j → size ≤ j * size - i * size
    gap lt = omega (arith, next_slot-le size i j lt)

    after : j < i → j * size + length src ≤ i * size
    after gt = omega (arith, next_slot-le size j i gt)

-- Blocks that agree on a prefix have the same elements there.
pub slot_prefix :
    (size n : ℕ) (b c : Bytes) (i : ℕ)
    → take (n * size) b ≡ take (n * size) c
    → i < n
    → slot size b i ≡ slot size c i
slot_prefix size n b c i e h =
    sym (take-drop-take size (i * size) (n * size) b (next_slot-le size i n h))
    ∙ ap (λ l. take size (drop (i * size) l)) e
    ∙ take-drop-take size (i * size) (n * size) c (next_slot-le size i n h)

-- What the buffer at `out` holds after a copy to it.
abbrev pub received : Option Bytes → Bytes → Option Bytes
received none x = none
received (some o) x = some (overwrite 0 x o)

-- `out` is NULL or a buffer of at least `n` bytes.
abbrev pub RoomFor : Option Bytes → ℕ → Type 0
RoomFor none n = Unit {0}
RoomFor (some o) n = n ≤ length o

pub length-slot :
    (size : ℕ) (b : Bytes) (off : ℕ)
    → off + size ≤ length b
    → length (take size (drop off b)) ≡ size
length-slot size b off h = omega (arith, length-take size (drop off b), length-drop off b)

pub copy_out-received :
    (out : Option Bytes) (b : Bytes) (off size : ℕ)
    → off + size ≤ length b
    → RoomFor out size
    → copy_out out (some b) off size ≡ some (received out (take size (drop off b)))
unfolding copy_out
copy_out-received none b off size h room = refl
copy_out-received (some o) b off size h room =
    rw (le→leb _ _ h, le→leb (0 + length (take size (drop off b))) (length o) fits) refl
  where
    fits : 0 + length (take size (drop off b)) ≤ length o
    fits = omega (arith, length-slot size b off h)

-- The bytes of a block that may be NULL.
abbrev pub bytes_of : Option Bytes → Bytes
bytes_of none = []
bytes_of (some b) = b

pub overwrite_all : (x b : Bytes) → length x ≡ length b → overwrite 0 x b ≡ x
unfolding overwrite
overwrite_all [] [] h = refl
overwrite_all [] (y ∷ b) h = absurd (omega arith)
overwrite_all (x ∷ xs) [] h = absurd (omega arith)
overwrite_all (x ∷ xs) (y ∷ b) h = ap (λ l. x ∷ l) (overwrite_all xs b (omega arith))
