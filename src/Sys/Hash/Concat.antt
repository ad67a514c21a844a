-- ===== src/Sys/Hash/Concat.antt =====
-- The hash of data given in pieces.
use Prim.Native.Nat.{bit_xor}
use egl_utils_c.Base.{ℕ, ◌≡◌, refl, some, [], ◌∷◌, ◌++◌, Bytes, length, mul_size, ◌>>=◌}
use egl_utils_c.Str.View.Fields.{NoSep}
use egl_utils_c.Str.View.Equals.{strlen-append}
use egl_utils_c.Sys.Hash.{rounds, prime, offset_basis, fnv1a_continue, fnv1a, fnv1a_str}

-- The hash as a fold over the bytes.
unfoldable pub folded : ℕ → Bytes → ℕ
folded h [] = h
folded h (c ∷ a) = folded (mul_size (bit_xor h c) prime) a

rounds-folded : (h : ℕ) (a rest : Bytes) → rounds h (length a) (a ++ rest) ≡ some (folded h a)
unfolding rounds folded
rounds-folded h [] rest = refl
rounds-folded h (c ∷ a) rest = rounds-folded (mul_size (bit_xor h c) prime) a rest

folded-append : (h : ℕ) (a b : Bytes) → folded h (a ++ b) ≡ folded (folded h a) b
unfolding folded
folded-append h [] b = refl
folded-append h (c ∷ a) b = folded-append (mul_size (bit_xor h c) prime) a b

-- d4np_hash_fnv1a of a piece `a`, continued by d4np_hash_fnv1a_continue over a piece `b`, gives the
-- same as d4np_hash_fnv1a_str of the string of both that a NUL ends, where neither has a NUL.
pub fnv1a-append :
    (a b za zb rest : Bytes)
    → NoSep 0 (a ++ b)
    → (do h ← fnv1a (some (a ++ za)) (length a); fnv1a_continue h (some (b ++ zb)) (length b))
      ≡ fnv1a_str (some ((a ++ b) ++ (0 ∷ rest)))
unfolding fnv1a fnv1a_continue fnv1a_str
fnv1a-append a b za zb rest no_nul =
    rw
      (
        rounds-folded offset_basis a za,
        rounds-folded (folded offset_basis a) b zb,
        strlen-append (a ++ b) rest no_nul,
        rounds-folded offset_basis (a ++ b) (0 ∷ rest),
        folded-append offset_basis a b,
      )
      refl
