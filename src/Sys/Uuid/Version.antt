-- ===== src/Sys/Uuid/Version.antt =====
-- What generate writes: two random words with the version and the variant of RFC 4122.
use Prim.Native.Nat.{bit_or}
use egl_utils_c.Base.{
  ℕ, zero, suc, ◌+◌, ◌/◌, ◌%◌, ◌≤◌, ◌<◌, bit_and, bit_and-low_mask, ◌≡◌, refl, sym, ap, ◌∙◌, arith,
  inl, inr, ◌⊎◌, ◌≢◌, Bool, true, ◌&&◌, ◌==◌, some, [], ◌∷◌, ◌++◌, Bytes, length, drop, get_elem?,
  get_or, set, length-set, length-append, length-drop, overwrite, overwrite_all, write_at, le→leb,
  ◌>>=◌,
}
use egl_utils_c.Sys.Uuid.{Uuid, Random, le_bytes, mask_byte, next_random, fill, generate}

-- A test of every number below `n`.
abbrev pub all_below : ℕ → (ℕ → Bool) → Bool
all_below zero p = true
all_below (suc n) p = all_below n p && p n

pub all_below-at : (n : ℕ) (p : ℕ → Bool) (i : ℕ) → all_below n p ≡ true → i < n → p i ≡ true
all_below-at zero p i h lt = absurd (omega arith)
all_below-at (suc n) p i h lt = elim order [
  | inl below ↦ all_below-at n p i (and_left (all_below n p) (p n) h) below
  | inr last ↦ ap p last ∙ and_right (all_below n p) (p n) h
]
  where
    order : (i < n) ⊎ (i ≡ n)
    order = omega arith

    and_left : (a b : Bool) → (a && b) ≡ true → a ≡ true
    and_left a b h = ground arith

    and_right : (a b : Bool) → (a && b) ≡ true → b ≡ true
    and_right a b h = ground arith

test-eq : (a b : ℕ) → (a == b) ≡ true → a ≡ b
test-eq a b h = ground arith

version_table : all_below 16 (λ r. bit_or r 64 == 64 + r) ≡ true
version_table = refl

variant_table : all_below 64 (λ r. bit_or r 128 == 128 + r) ≡ true
variant_table = refl

version_bits : (b : ℕ) → bit_or (bit_and b 15) 64 ≡ 64 + b % 16
version_bits b =
    ap (λ r. bit_or r 64) (bit_and-low_mask b 4)
    ∙ test-eq _ _
        (all_below-at 16 (λ r. bit_or r 64 == 64 + r) (b % 16) version_table (omega arith))

variant_bits : (b : ℕ) → bit_or (bit_and b 63) 128 ≡ 128 + b % 64
variant_bits b =
    ap (λ r. bit_or r 128) (bit_and-low_mask b 6)
    ∙ test-eq _ _
        (all_below-at 64 (λ r. bit_or r 128 == 128 + r) (b % 64) variant_table (omega arith))

length-le_bytes : (n x : ℕ) → length (le_bytes n x) ≡ n
length-le_bytes zero x = refl
length-le_bytes (suc n) x = ap suc (length-le_bytes n (x / 256))

overwrite-one : (i : ℕ) (x : ℕ) (b : Bytes) → overwrite i (x ∷ []) b ≡ set b i x
unfolding overwrite
overwrite-one i x [] = refl
overwrite-one zero x (c ∷ []) = refl
overwrite-one zero x (c ∷ d ∷ b) = refl
overwrite-one (suc i) x (c ∷ b) = ap (λ l. c ∷ l) (overwrite-one i x b)

overwrite-front : (x b : Bytes) → length x ≤ length b → overwrite 0 x b ≡ x ++ drop (length x) b
unfolding overwrite
overwrite-front [] [] h = refl
overwrite-front [] (c ∷ b) h = refl
overwrite-front (y ∷ x) [] h = absurd (omega arith)
overwrite-front (y ∷ x) (c ∷ b) h = ap (λ l. y ∷ l) (overwrite-front x b (omega arith))

overwrite-append : (x y d : Bytes) → overwrite (length x) y (x ++ d) ≡ x ++ overwrite 0 y d
unfolding overwrite
overwrite-append [] y d = refl
overwrite-append (c ∷ x) y d = ap (λ l. c ∷ l) (overwrite-append x y d)

get_elem?-get_or : (b : Bytes) (i : ℕ) → i < length b → get_elem? b i ≡ some (get_or b i 0)
get_elem?-get_or [] i h = absurd (omega arith)
get_elem?-get_or (c ∷ b) zero h = refl
get_elem?-get_or (c ∷ b) (suc i) h = get_elem?-get_or b i (omega arith)

mask_byte-set :
    (i keep mark : ℕ) (b : Bytes)
    → i < length b
    → mask_byte i keep mark b ≡ some (set b i (bit_or (bit_and (get_or b i 0) keep) mark))
unfolding mask_byte write_at
mask_byte-set i keep mark b h =
    rw
      (
        get_elem?-get_or b i h,
        le→leb (i + 1) (length b) (omega arith),
        overwrite-one i (bit_or (bit_and (get_or b i 0) keep) mark) b,
      )
      refl

-- The two words drawn, as sixteen bytes.
abbrev pub words : Random → Bytes
words r =
    let (a, r1) = next_random r in let (b, r2) = next_random r1 in le_bytes 8 a ++ le_bytes 8 b

abbrev pub with_version : Bytes → Bytes
with_version raw = set raw 6 (64 + get_or raw 6 0 % 16)

abbrev pub with_variant : Bytes → Bytes
with_variant raw = set raw 8 (128 + get_or raw 8 0 % 64)

store_low :
    (dst low : Bytes)
    → length dst ≡ 16
    → length low ≡ 8
    → write_at (some dst) 0 low ≡ some (low ++ drop 8 dst)
unfolding write_at
store_low dst low e l =
    rw (le→leb (0 + length low) (length dst) (omega arith))
      (ap some (overwrite-front low dst (omega arith) ∙ ap (λ n. low ++ drop n dst) l))

store_high :
    (low rest high : Bytes)
    → length low ≡ 8
    → length rest ≡ 8
    → length high ≡ 8
    → write_at (some (low ++ rest)) 8 high ≡ some (low ++ high)
unfolding write_at
store_high low rest high l r h =
    let fits : 8 + length high ≤ length (low ++ rest) = omega (arith, length-append low rest) in
    rw (le→leb (8 + length high) (length (low ++ rest)) fits) (
      ap (λ n. some (overwrite n high (low ++ rest))) (sym l)
      ∙ ap some (overwrite-append low high rest)
      ∙ ap (λ t. some (low ++ t)) (overwrite_all high rest (h ∙ sym r)))

-- A UUID of version 4: the top four bits of byte 6 are 0100, the top two of byte 8 are 10.
abbrev pub IsVersion4 : Bytes → Type 0
IsVersion4 b = (length b ≡ 16) × (get_or b 6 0 / 16 ≡ 4) × (get_or b 8 0 / 64 ≡ 2)

get_or-set_self : (b : Bytes) (i v : ℕ) → i < length b → get_or (set b i v) i 0 ≡ v
get_or-set_self [] i v h = absurd (omega arith)
get_or-set_self (c ∷ b) zero v h = refl
get_or-set_self (c ∷ b) (suc i) v h = get_or-set_self b i v (omega arith)

get_or-set_ne : (b : Bytes) (i j v : ℕ) → i ≢ j → get_or (set b i v) j 0 ≡ get_or b j 0
get_or-set_ne [] i j v ne = refl
get_or-set_ne (c ∷ b) zero zero v ne = absurd (ne refl)
get_or-set_ne (c ∷ b) zero (suc j) v ne = refl
get_or-set_ne (c ∷ b) (suc i) zero v ne = refl
get_or-set_ne (c ∷ b) (suc i) (suc j) v ne = get_or-set_ne b i j v (λ e. ne (ap suc e))

marked-IsVersion4 : (raw : Bytes) → length raw ≡ 16 → IsVersion4 (with_variant (with_version raw))
marked-IsVersion4 raw e =
    let v : Bytes = with_version raw in
    let size : length v ≡ 16 = length-set raw 6 (64 + get_or raw 6 0 % 16) ∙ e in
    let six : get_or (with_variant v) 6 0 ≡ 64 + get_or raw 6 0 % 16 =
      get_or-set_ne v 8 6 (128 + get_or v 8 0 % 64) (λ n. omega arith)
      ∙ get_or-set_self raw 6 (64 + get_or raw 6 0 % 16) (omega arith) in
    let eight : get_or (with_variant v) 8 0 ≡ 128 + get_or v 8 0 % 64 =
      get_or-set_self v 8 (128 + get_or v 8 0 % 64) (omega arith) in
    (
      length-set v 8 (128 + get_or v 8 0 % 64) ∙ size,
      ap (λ x. x / 16) six ∙ top_four (get_or raw 6 0),
      ap (λ x. x / 64) eight ∙ top_two (get_or v 8 0),
    )
  where
    top_four : (x : ℕ) → (64 + x % 16) / 16 ≡ 4
    top_four x = omega arith

    top_two : (x : ℕ) → (128 + x % 64) / 64 ≡ 2
    top_two x = omega arith

versioned : (b : Bytes) → length b ≡ 16 → mask_byte 6 15 64 b ≡ some (with_version b)
versioned b e =
    mask_byte-set 6 15 64 b (omega arith) ∙ ap (λ x. some (set b 6 x)) (version_bits (get_or b 6 0))

varied : (b : Bytes) → length b ≡ 16 → mask_byte 8 63 128 b ≡ some (with_variant b)
varied b e =
    mask_byte-set 8 63 128 b (omega arith)
    ∙ ap (λ x. some (set b 8 x)) (variant_bits (get_or b 8 0))

fill-words :
    (out : Bytes) (a b : ℕ)
    → length out ≡ 16
    → fill out a b
      ≡ some (record { bytes = with_variant (with_version (le_bytes 8 a ++ le_bytes 8 b)) })
unfolding fill
fill-words out a b e =
    let la = length-le_bytes 8 a in
    let lb = length-le_bytes 8 b in
    let raw : Bytes = le_bytes 8 a ++ le_bytes 8 b in
    rw
      (
        store_low out (le_bytes 8 a) e la,
        store_high (le_bytes 8 a) (drop 8 out) (le_bytes 8 b) la (length-drop 8 out ∙ omega arith)
            lb,
        versioned raw refl,
        varied (with_version raw) refl,
      )
      refl

-- Generate stays inside the 16 bytes and writes two words of the generator into them, with nothing
-- but the version and the variant of RFC 4122 changed: the result is a UUID of version 4, whatever
-- the state of the generator.
pub generate-IsVersion4 :
    (out : Uuid) (r : Random)
    → length out.bytes ≡ 16
    → (u : Uuid) × (r' : Random) × (generate (some out) r ≡ some (some u, r'))
      × (u.bytes ≡ with_variant (with_version (words r)))
      × IsVersion4 u.bytes
unfolding generate
generate-IsVersion4 out r e =
    let first = next_random r in
    let second = next_random first.1 in
    (
      record { bytes = with_variant (with_version (words r)) },
      second.1,
      ap (λ o. o >>= (λ u. some (some u, second.1))) (fill-words out.bytes first.0 second.0 e),
      refl,
      marked-IsVersion4 (words r) refl,
    )
