-- ===== src/Sys/Uuid/Format.antt =====
-- The text of a UUID: 8-4-4-4-12 hexadecimal digits.
use egl_utils_c.Base.{
  ℕ, zero, suc, ◌+◌, ◌/◌, ◌%◌, ◌^◌, ◌≤◌, ◌<◌, bit_and-low_mask, ◌≡◌, refl, sym, ap, ◌∙◌, arith, inl,
  inr, true, Bool-cases, ltb, ◌==◌, some, [], ◌∷◌, ◌++◌, Bytes, length, drop, get_elem?, get_or,
  length-append, length-drop, overwrite, write_at, le→leb, if◌then◌else◌,
}
use egl_utils_c.Sys.Uuid.{hex, hex_digit, dash_before, put_digits, format_byte, format_loop}
use egl_utils_c.Sys.Uuid.Version.{all_below, all_below-at}

-- A hexadecimal digit: '0' to '9', then 'a' to 'f'.
abbrev pub digit : ℕ → ℕ
digit d = if ltb d 10 then 48 + d else 87 + d

abbrev pub digits_of : Bytes → Bytes
digits_of [] = []
digits_of (b ∷ bs) = digit (b / 16 % 16) ∷ digit (b % 16) ∷ digits_of bs

hex_table : all_below 16 (λ r. get_or hex r 0 == digit r) ≡ true
hex_table = refl

hex_digit-digit : (d : ℕ) → hex_digit d ≡ digit (d % 16)
unfolding hex_digit
hex_digit-digit d =
    ap (λ r. get_or hex r 0) (bit_and-low_mask d 4)
    ∙ test-eq _ _
        (all_below-at 16 (λ r. get_or hex r 0 == digit r) (d % 16) hex_table (omega arith))
  where
    test-eq : (a b : ℕ) → (a == b) ≡ true → a ≡ b
    test-eq a b h = ground arith

laid :
    (d : Bytes) (x : ℕ) (rest : Bytes) (c : ℕ)
    → overwrite (length d) (c ∷ []) (d ++ (x ∷ rest)) ≡ (d ++ (c ∷ [])) ++ rest
unfolding overwrite
laid [] x [] c = refl
laid [] x (y ∷ rest) c = refl
laid (y ∷ d) x rest c = ap (λ l. y ∷ l) (laid d x rest c)

-- One char stored after those that are there.
pub put_char :
    (done : Bytes) (x : ℕ) (rest : Bytes) (c pos : ℕ)
    → pos ≡ length done
    → write_at (some (done ++ (x ∷ rest))) pos (c ∷ []) ≡ some ((done ++ (c ∷ [])) ++ rest)
unfolding write_at
put_char done x rest c pos e =
    let fits : pos + 1 ≤ length (done ++ (x ∷ rest)) =
      omega (arith, length-append done (x ∷ rest)) in
    rw (le→leb (pos + 1) (length (done ++ (x ∷ rest))) fits)
      (ap (λ p. some (overwrite p (c ∷ []) (done ++ (x ∷ rest)))) e ∙ ap some (laid done x rest c))

-- The text with what one byte adds to it.
abbrev pub emit : Bytes → ℕ → ℕ → Bytes
emit done i b =
    let dashed = if dash_before i then done ++ (45 ∷ []) else done in
    (dashed ++ (digit (b / 16 % 16) ∷ [])) ++ (digit (b % 16) ∷ [])

abbrev pub emit_all : Bytes → ℕ → Bytes → Bytes
emit_all done i [] = done
emit_all done i (b ∷ bs) = emit_all (emit done i b) (suc i) bs

abbrev pub width : ℕ → ℕ
width i = if dash_before i then 3 else 2

abbrev pub widths : ℕ → ℕ → ℕ
widths zero i = 0
widths (suc n) i = width i + widths n (suc i)

length-snoc : (d : Bytes) (c : ℕ) → length (d ++ (c ∷ [])) ≡ length d + 1
length-snoc d c = length-append d (c ∷ [])

-- The digits of a byte after what is there.
abbrev with_digits : Bytes → ℕ → Bytes
with_digits done b = (done ++ (digit (b / 16 % 16) ∷ [])) ++ (digit (b % 16) ∷ [])

put_digits-emits :
    (done : Bytes) (x y : ℕ) (rest : Bytes) (pos b : ℕ)
    → pos ≡ length done
    → put_digits (done ++ (x ∷ y ∷ rest)) pos b ≡ some (with_digits done b ++ rest, pos + 2)
unfolding put_digits
put_digits-emits done x y rest pos b e =
    let h = digit (b / 16 % 16) in
    rw
      (
        hex_digit-digit (b / 2 ^ 4),
        hex_digit-digit b,
        put_char done x (y ∷ rest) h pos e,
        put_char (done ++ (h ∷ [])) y rest (digit (b % 16)) (pos + 1)
            (omega (arith, length-snoc done h)),
      )
      refl

length-with_digits : (done : Bytes) (b : ℕ) → length (with_digits done b) ≡ length done + 2
length-with_digits done b =
    let h = digit (b / 16 % 16) in
    omega (arith, length-snoc done h, length-snoc (done ++ (h ∷ [])) (digit (b % 16)))

length-emit : (done : Bytes) (i b : ℕ) → length (emit done i b) ≡ length done + width i
length-emit done i b = elim (Bool-cases (dash_before i)) [
  | inl t ↦ rw t (omega (arith, length-with_digits (done ++ (45 ∷ [])) b, length-snoc done 45))
  | inr t ↦ rw t (length-with_digits done b)
]

format_byte-emits :
    (done rest : Bytes) (pos i b : ℕ)
    → pos ≡ length done
    → width i ≤ length rest
    → format_byte (done ++ rest) pos i b
      ≡ some (emit done i b ++ drop (width i) rest, length (emit done i b))
unfolding format_byte
format_byte-emits done [] pos i b e h = absurd (ground arith)
format_byte-emits done (x ∷ []) pos i b e h = absurd (ground arith)
format_byte-emits done (x ∷ y ∷ rest) pos i b e h = elim (Bool-cases (dash_before i)) [
  | inl t ↦
      elim rest as (λ l. width i ≤ suc (suc (length l)) → Goal l) [
        | [] ↦ λ k. absurd (ground arith)
        | (z ∷ zs) ↦ λ k.
            rw
              (
                t,
                put_char done x (y ∷ z ∷ zs) 45 pos e,
                put_digits-emits (done ++ (45 ∷ [])) y z zs (pos + 1) b
                    (omega (arith, length-snoc done 45)),
              )
              (ap (λ n. some (with_digits (done ++ (45 ∷ [])) b ++ zs, n))
                (omega (arith, length-with_digits (done ++ (45 ∷ [])) b, length-snoc done 45)))
      ]
        h
  | inr t ↦
      rw (t, put_digits-emits done x y rest pos b e)
        (ap (λ n. some (with_digits done b ++ rest, n)) (omega (arith, length-with_digits done b)))
]
  where
    Goal : Bytes → Type 0
    Goal l =
        format_byte (done ++ (x ∷ y ∷ l)) pos i b
        ≡ some (emit done i b ++ drop (width i) (x ∷ y ∷ l), length (emit done i b))

drop_nil : (n : ℕ) → drop {A = ℕ} n [] ≡ []
drop_nil zero = refl
drop_nil (suc n) = refl

drop-drop : (k m : ℕ) (r : Bytes) → drop m (drop k r) ≡ drop (k + m) r
drop-drop zero m r = ap (λ n. drop n r) (omega arith)
drop-drop (suc k) m [] = drop_nil m ∙ sym (drop_nil (suc k + m))
drop-drop (suc k) m (x ∷ r) =
    let e : suc (k + m) ≡ suc k + m = omega arith in drop-drop k m r ∙ ap (λ n. drop n (x ∷ r)) e

drop_step :
    (i : ℕ) (bs : Bytes)
    → i < length bs
    → (b : ℕ) × (get_elem? bs i ≡ some b) × (drop i bs ≡ b ∷ drop (suc i) bs)
drop_step i [] h = absurd (omega arith)
drop_step zero (c ∷ bs) h = (c, refl, refl)
drop_step (suc i) (c ∷ bs) h = drop_step i bs (omega arith)

-- The loop from i on lays the text of the bytes that are left after what is there.
abbrev pub Emits : ℕ → ℕ → Bytes → Type 0
Emits n i bytes =
    (done rest : Bytes)
    → length (drop i bytes) ≡ n
    → widths n i ≤ length rest
    → format_loop n i bytes (done ++ rest) (length done)
      ≡ some (
        emit_all done i (drop i bytes) ++ drop (widths n i) rest,
        length (emit_all done i (drop i bytes)),
      )

step-Emits :
    (n i : ℕ) (bytes : Bytes) (b : ℕ)
    → get_elem? bytes i ≡ some b
    → drop i bytes ≡ b ∷ drop (suc i) bytes
    → Emits n (suc i) bytes
    → Emits (suc n) i bytes
unfolding format_loop
step-Emits n i bytes b at left later done rest size h =
    let k = width i in
    let m = widths n (suc i) in
    let here = format_byte-emits done rest (length done) i b refl (omega arith) in
    let rest_size : length (drop (suc i) bytes) ≡ n =
      omega (arith, length-drop i bytes, length-drop (suc i) bytes) in
    let after = later (emit done i b) (drop k rest) rest_size (omega (arith, length-drop k rest)) in
    rw (at, here, after, left)
      (ap
        (λ r. some (
          emit_all (emit done i b) (suc i) (drop (suc i) bytes) ++ r,
          length (emit_all (emit done i b) (suc i) (drop (suc i) bytes)),
        ))
        (drop-drop k m rest))

pub loop-Emits : (n i : ℕ) (bytes : Bytes) → Emits n i bytes
unfolding format_loop
loop-Emits zero i bytes done rest e h = rw (empty (drop i bytes) e) refl
  where
    empty : (b : Bytes) → length b ≡ 0 → b ≡ []
    empty [] e = refl
    empty (x ∷ b) e = absurd (omega arith)
loop-Emits (suc n) i bytes done rest e h =
    let (b, at, left) = drop_step i bytes (omega (arith, length-drop i bytes)) in
    step-Emits n i bytes b at left (loop-Emits n (suc i) bytes) done rest e h
