-- ===== src/Str/View/Equals.antt =====
-- The views of strings, and d4np_str_view_equals.
use egl_utils_c.Base.{
  suc, ◌+◌, ◌≤◌, ◌<◌, ◌≡◌, ◌≢◌, refl, sym, ap, ap₂, ◌∙◌, arith, Bool, true, false, some, [], ◌∷◌,
  ◌++◌, Bytes, take, length, length-take, length-append, le→leb, ◌==◌, Bool-cases, inl, inr, ◌⊎◌,
  size_mod, read_at, bytes_of,
}
use egl_utils_c.Str.View.{View, strlen, from_str, same_bytes, equals}
use egl_utils_c.Str.View.Fields.{NoSep}
use egl_utils_c.Str.View.SplitNext.{text, IsReadable}

pub strlen-append : (w rest : Bytes) → NoSep 0 w → strlen (w ++ (0 ∷ rest)) ≡ some (length w)
unfolding strlen
strlen-append [] rest h = refl
strlen-append (c ∷ w) rest (ne, h) =
    let no : (c == 0) ≡ false = ground arith in
    let n : length w + 1 ≡ suc (length w) = omega arith in
    rw (no, strlen-append w rest h) (ap some n)

take_left : (w rest : Bytes) → take (length w) (w ++ rest) ≡ w
take_left [] rest = refl
take_left (c ∷ w) rest = ap (λ l. c ∷ l) (take_left w rest)

-- The view of the string `w`, whose bytes are not NUL and which a NUL ends, is readable and shows
-- `w`.
pub from_str-text :
    (w rest : Bytes)
    → NoSep 0 w
    → length w < size_mod
    → (v : View) × (from_str (some (w ++ (0 ∷ rest))) ≡ some v) × IsReadable v × (text v ≡ w)
unfolding from_str
from_str-text w rest h small = (
  record { ptr = some (w ++ (0 ∷ rest)); len = length w },
  rw (strlen-append w rest h) refl,
  record {
    start = w ++ (0 ∷ rest);
    at = refl;
    inside = omega (arith, length-append w (0 ∷ rest));
    len_lt = small;
  },
  take_left w (0 ∷ rest),
)

pub read_at-text : (v : View) → IsReadable v → read_at v.ptr 0 v.len ≡ some (text v)
unfolding read_at
read_at-text v r =
    let fits : 0 + v.len ≤ length r.start = omega (arith, r.inside) in
    rw (r.at, le→leb (0 + v.len) (length r.start) fits) refl

-- The result of a comparison of two lists of bytes.
abbrev pub Decides : Bytes → Bytes → Bool → Type 0
Decides x y same = ((same ≡ true) × (x ≡ y)) ⊎ ((same ≡ false) × (x ≢ y))

pub same_bytes-Decides : (x y : Bytes) → Decides x y (same_bytes x y)
unfolding same_bytes
same_bytes-Decides [] [] = inl (refl, refl)
same_bytes-Decides [] (c ∷ y) = inr (refl, λ e. absurd cc)
same_bytes-Decides (c ∷ x) [] = inr (refl, λ e. absurd cc)
same_bytes-Decides (c ∷ x) (d ∷ y) = elim (Bool-cases (c == d)) [
  | inl hit ↦
      let head : c ≡ d = ground arith in
      rw hit (elim (same_bytes-Decides x y) [
        | inl (t, e) ↦ inl (t, ap₂ (λ a b. a ∷ b) head e)
        | inr (f, ne) ↦ inr (f, λ e. ne cc)
      ])
  | inr miss ↦ let heads : c ≢ d = ground arith in rw miss (inr (refl, λ e. heads cc))
]

pub length-text : (v : View) → IsReadable v → length (text v) ≡ v.len
length-text v r =
    let whole : length (bytes_of v.ptr) ≡ length r.start = ap (λ p. length (bytes_of p)) r.at in
    omega (arith, length-take v.len (bytes_of v.ptr), r.inside, whole)

-- d4np_str_view_equals on readable views reads inside them and tells whether their texts are equal.
pub equals-Decides :
    (a b : View)
    → IsReadable a
    → IsReadable b
    → (same : Bool) × (equals a b ≡ some same) × Decides (text a) (text b) same
unfolding equals
equals-Decides a b ra rb = elim (Bool-cases (a.len == b.len)) [
  | inr ne ↦
      let lens : a.len ≢ b.len = ground arith in
      (
        false,
        rw ne refl,
        inr (refl, λ e. lens (sym (length-text a ra) ∙ ap length e ∙ length-text b rb)),
      )
  | inl eq ↦
      let lens : a.len ≡ b.len = ground arith in
      elim (Bool-cases (a.len == 0)) [
        | inl empty ↦
            let za : length (text a) ≡ 0 = ground (arith, length-text a ra) in
            let zb : length (text b) ≡ 0 = ground (arith, length-text b rb) in
            (true, rw (eq, empty) refl, inl (refl, nil (text a) za ∙ sym (nil (text b) zb)))
        | inr full ↦ (
          same_bytes (text a) (text b),
          rw (eq, full, read_at-text a ra, lens, read_at-text b rb) refl,
          same_bytes-Decides (text a) (text b),
        )
      ]
]
  where
    nil : (x : Bytes) → length x ≡ 0 → x ≡ []
    nil [] e = refl
    nil (c ∷ x) e = absurd (omega arith)
