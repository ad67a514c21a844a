-- ===== src/Sys/Uuid/Canonical.antt =====
-- The text that format writes, whole.
use egl_utils_c.Base.{
  ℕ, zero, suc, ◌+◌, ◌≤◌, ◌≡◌, refl, sym, ap, subst, ◌∙◌, arith, some, [], ◌∷◌, ◌++◌, Bytes, length,
  take, drop, get_or, tabulate, tabulate-cons,
}
use egl_utils_c.Sys.Uuid.{Uuid, format}
use egl_utils_c.Sys.Uuid.Format.{digits_of, emit_all, put_char, loop-Emits}

-- The canonical text of sixteen bytes.
abbrev pub canonical : Bytes → Bytes
canonical bs =
    digits_of (take 4 bs)
    ++ (45 ∷ digits_of (take 2 (drop 4 bs)))
    ++ (45 ∷ digits_of (take 2 (drop 6 bs)))
    ++ (45 ∷ digits_of (take 2 (drop 8 bs)))
    ++ (45 ∷ digits_of (drop 10 bs))

tabulate-get_or : (b : Bytes) → tabulate (length b) (λ i. get_or b i 0) ≡ b
tabulate-get_or [] = refl
tabulate-get_or (x ∷ b) =
    tabulate-cons (length b) (λ i. get_or (x ∷ b) i 0) ∙ ap (λ l. x ∷ l) (tabulate-get_or b)

emit_all-canonical : (b : Bytes) → length b ≡ 16 → emit_all [] 0 b ≡ canonical b
emit_all-canonical b e =
    let whole : tabulate 16 (λ i. get_or b i 0) ≡ b =
      ap (λ n. tabulate n (λ i. get_or b i 0)) (sym e) ∙ tabulate-get_or b in
    subst (λ c. emit_all [] 0 c ≡ canonical c) whole (sixteen (λ i. get_or b i 0))
  where
    sixteen : (f : ℕ → ℕ) → emit_all [] 0 (tabulate 16 f) ≡ canonical (tabulate 16 f)
    sixteen f = refl

append-snoc : (a : Bytes) (c : ℕ) (b : Bytes) → (a ++ (c ∷ [])) ++ b ≡ a ++ (c ∷ b)
append-snoc [] c b = refl
append-snoc (y ∷ a) c b = ap (λ l. y ∷ l) (append-snoc a c b)

-- Sixteen bytes and the NUL fit in 37 chars: on those, format writes the digits of the bytes in groups
-- of 8, 4, 4, 4 and 12 with dashes between them and the NUL after them, and touches no char beyond.
pub format-canonical :
    (u : Uuid) (out : Bytes)
    → length u.bytes ≡ 16
    → 37 ≤ length out
    → format (some u) (some out) ≡ some (some (canonical u.bytes ++ (0 ∷ drop 37 out)))
unfolding format
format-canonical u out e h = go (drop_at 36 out (omega arith))
  where
    drop_at : (n : ℕ) (b : Bytes) → n + 1 ≤ length b → (x : ℕ) × (drop n b ≡ x ∷ drop (suc n) b)
    drop_at n [] h = absurd (omega arith)
    drop_at zero (x ∷ b) h = (x, refl)
    drop_at (suc n) (x ∷ b) h = drop_at n b (omega arith)

    text : Bytes
    text = emit_all [] 0 u.bytes

    go :
        (x : ℕ) × (drop 36 out ≡ x ∷ drop 37 out)
        → format (some u) (some out) ≡ some (some (canonical u.bytes ++ (0 ∷ drop 37 out)))
    go (x, left) =
        let looped = loop-Emits 16 0 u.bytes [] out e (omega arith) in
        let ended = put_char text x (drop 37 out) 0 (length text) refl in
        rw (looped, left, ended)
          (ap (λ t. some (some t))
            (append-snoc text 0 (drop 37 out)
              ∙ ap (λ t. t ++ (0 ∷ drop 37 out)) (emit_all-canonical u.bytes e)))
