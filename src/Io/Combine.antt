-- ===== src/Io/Combine.antt =====
-- d4np/io/path.h and path.c, as built for POSIX, where '/' is the only separator. A string is the
-- list of its bytes with the NUL; `none` is undefined behaviour (a string without a NUL, a buffer
-- shorter than `out_size`).
pub mod Trim
pub mod Joined
mod Tests
use egl_utils_c.Base.{
  ℕ, zero, suc, ◌+◌, ◌-◌, Bool, true, false, not, ◌&&◌, Option, none, some, List, [], ◌∷◌, ◌++◌,
  Bytes, ltb, ◌==◌, if◌then◌else◌, add_size, get_elem?, length, take, drop, set, ◌>>=◌,
}
use egl_utils_c.Str.View.{strlen}

abbrev pub is_sep : ℕ → Bool
is_sep c = c == 47

-- a == NULL ? "" : a
abbrev pub or_empty : Option Bytes → Bytes
or_empty none = 0 ∷ []
or_empty (some s) = s

-- The loop on `alen`: it drops trailing separators.
unfoldable pub trim_end : ℕ → Bytes → Option ℕ
trim_end zero a = some 0
trim_end (suc n) a =
    let rest = trim_end n a in do c ← get_elem? a n; if is_sep c then rest else some (suc n)

-- The loop on `bstart`, over the `n` bytes left: it counts leading separators.
unfoldable pub trim_start : ℕ → Bytes → Option ℕ
trim_start zero b = some 0
trim_start (suc n) [] = none
trim_start (suc n) (c ∷ b) =
    let rest = trim_start n b in if is_sep c then (do k ← rest; some (k + 1)) else some 0

-- `out`, the write position and the total.
pub record Writer : Type 0 where
  pub out : Option Bytes
  pub w : ℕ
  pub total : ℕ

-- D4NP_PUT where `out` is not NULL: the store, if there is room beside the NUL.
unfoldable pub put_into : ℕ → ℕ → Writer → Bytes → Option Writer
put_into out_size ch wr o =
    if ltb (add_size wr.w 1) out_size
    then (if ltb wr.w (length o)
        then some (record {
          out = some (set o wr.w ch);
          w = add_size wr.w 1;
          total = add_size wr.total 1;
        })
        else none)
    else some (record wr { total = add_size wr.total 1 })

-- D4NP_PUT
unfoldable pub put : ℕ → ℕ → Writer → Option Writer
unfolding put_into
put out_size ch wr = elim wr.out [
  | none ↦ some (record wr { total = add_size wr.total 1 })
  | some o ↦ put_into out_size ch wr o
]

-- A loop of D4NP_PUT over the first `n` bytes of `s`.
unfoldable pub put_all : ℕ → ℕ → Bytes → Writer → Option Writer
unfolding put
put_all out_size zero s wr = some wr
put_all out_size (suc n) [] wr = none
put_all out_size (suc n) (c ∷ s) wr = do wr' ← put out_size c wr; put_all out_size n s wr'

unfoldable pub terminate : ℕ → Writer → Option Bytes → Option (ℕ × Option Bytes)
terminate out_size wr none = some (wr.total, none)
terminate out_size wr (some o) =
    if ltb 0 out_size
    then (if ltb wr.w (length o) then some (wr.total, some (set o wr.w 0)) else none)
    else some (wr.total, some o)

-- The puts and the NUL: `b` starts at the first byte that is kept.
unfoldable pub write_joined : ℕ → Bool → ℕ → Bytes → ℕ → Bytes → Writer → Option (ℕ × Option Bytes)
unfolding put_all put terminate
write_joined out_size a_is_root alen a bcount b wr =
    if a_is_root
    then (do
      wr1 ← put out_size 47 wr
      wr2 ← put_all out_size bcount b wr1
      terminate out_size wr2 wr2.out)
    else (do
      wr1 ← put_all out_size alen a wr
      wr2 ← if ltb 0 alen && ltb 0 bcount then put out_size 47 wr1 else some wr1
      wr3 ← put_all out_size bcount b wr2
      terminate out_size wr3 wr3.out)

-- The result, and the buffer at `out` after the call.
unfoldable pub path_combine :
    Option Bytes → ℕ → Option Bytes → Option Bytes → Option (ℕ × Option Bytes)
unfolding trim_end trim_start write_joined
path_combine out out_size pa pb = do
  a_full ← strlen (or_empty pa)
  alen ← trim_end a_full (or_empty pa)
  blen ← strlen (or_empty pb)
  bstart ← trim_start blen (or_empty pb)
  write_joined out_size (ltb 0 a_full && alen == 0) alen (or_empty pa) (blen - bstart)
      (drop bstart (or_empty pb)) (record { out = out; w = 0; total = 0 })
