-- ===== src/Base/Window.antt =====
-- Windows of bytes at the multiples of a stride, in a block of memory.
use Prim.Native.Nat.{ℕ, ◌+◌, ◌-◌, ◌*◌, ◌≤◌, ◌<◌}
use mathlib.Core.Path.{◌≡◌, refl, sym, ap, ◌∙◌}
use mathlib.Core.Logic.{◌≢◌, ◌⊎◌, inl, inr}
use mathlib.Core.Option.{Option, none, some}
use native.Mathlib.Omega.{arith}
use egl_utils_c.Base.Tests.{le→leb}
use egl_utils_c.Base.Lists.{length, take, drop}
use egl_utils_c.Base.Block.{
  Bytes, bytes_of, overwrite, read_at, write_at, next_slot-le, take-overwrite,
  drop-overwrite_before, drop-overwrite_after, take-drop-overwrite,
}

-- The window of `n` bytes at `i * stride`.
abbrev pub window : ℕ → ℕ → Bytes → ℕ → Bytes
window stride n b i = take n (drop (i * stride) b)

pub window-overwrite_ne :
    (stride n : ℕ) (b : Bytes) (i j : ℕ) (src : Bytes)
    → n ≤ stride
    → length src ≤ stride
    → i ≢ j
    → window stride n (overwrite (j * stride) src b) i ≡ window stride n b i
window-overwrite_ne stride n b i j src fits h ne = elim order [
  | inl lt ↦
      let before : i * stride ≤ j * stride = omega (arith, next_slot-le stride i j lt) in
      let gap : n ≤ j * stride - i * stride = omega (arith, next_slot-le stride i j lt) in
      ap (take n) (drop-overwrite_before (i * stride) (j * stride) src b before)
      ∙ take-overwrite n (j * stride - i * stride) src (drop (i * stride) b) gap
  | inr gt ↦
      let after : j * stride + length src ≤ i * stride =
        omega (arith, next_slot-le stride j i gt) in
      ap (take n) (drop-overwrite_after (i * stride) (j * stride) src b after)
]
  where
    order : (i < j) ⊎ (j < i)
    order = omega arith

pub window-overwrite_self :
    (stride n : ℕ) (b : Bytes) (i : ℕ) (src : Bytes)
    → length src ≡ n
    → i * stride + n ≤ length b
    → window stride n (overwrite (i * stride) src b) i ≡ src
window-overwrite_self stride n b i src e h =
    ap (λ k. take k (drop (i * stride) (overwrite (i * stride) src b))) (sym e)
    ∙ take-drop-overwrite (i * stride) src b (omega arith)

pub read_at-bytes_of :
    (o : Option Bytes) (off n : ℕ)
    → 0 < length (bytes_of o)
    → off + n ≤ length (bytes_of o)
    → read_at o off n ≡ some (take n (drop off (bytes_of o)))
unfolding read_at
read_at-bytes_of none off n pos h = absurd (omega arith)
read_at-bytes_of (some b) off n pos h = rw (le→leb (off + n) (length b) h) refl

pub write_at-block :
    (o : Option Bytes) (off : ℕ) (src : Bytes)
    → 0 < length (bytes_of o)
    → off + length src ≤ length (bytes_of o)
    → write_at o off src ≡ some (overwrite off src (bytes_of o))
unfolding write_at
write_at-block none off src pos h = absurd (omega arith)
write_at-block (some b) off src pos h = rw (le→leb (off + length src) (length b) h) refl
