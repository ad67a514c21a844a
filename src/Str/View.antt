-- ===== src/Str/View.antt =====
-- d4np/str/str_view.h and str_view.c. A pointer into a text is the list of the bytes from there on
-- that may be read, so `p + i` is `drop i p`; `none` is NULL. Reading past them is undefined
-- behaviour, the result `none`.
pub mod Fields
pub mod SplitNext
pub mod Split
pub mod Equals
mod Tests
use egl_utils_c.Base.{
  ℕ, zero, suc, ◌+◌, ◌-◌, Bool, true, false, not, ◌&&◌, Option, none, some, List, [], ◌∷◌, Bytes,
  drop, length, set, ltb, leb, ◌==◌, if◌then◌else◌, add_size, sub_size, ◌>>=◌, read_at,
}

-- d4np_str_view_t
pub record View : Type 0 where
  pub ptr : Option Bytes
  pub len : ℕ

-- The bytes of a string up to its NUL: strlen reads them one by one.
unfoldable pub strlen : Bytes → Option ℕ
strlen [] = none
strlen (c ∷ s) = let rest = strlen s in if c == 0 then some 0 else (do n ← rest; some (n + 1))

unfoldable pub from_str : Option Bytes → Option View
unfolding strlen
from_str none = some (record { ptr = none; len = 0 })
from_str (some s) = do n ← strlen s; some (record { ptr = some s; len = n })

unfoldable pub from_buf : Option Bytes → ℕ → View
from_buf none len = record { ptr = none; len = 0 }
from_buf (some b) len = record { ptr = some b; len = len }

-- memcmp(a, b, n) == 0
unfoldable pub same_bytes : Bytes → Bytes → Bool
same_bytes [] [] = true
same_bytes [] (y ∷ b) = false
same_bytes (x ∷ a) [] = false
same_bytes (x ∷ a) (y ∷ b) = x == y && same_bytes a b

unfoldable pub equals : View → View → Option Bool
unfolding same_bytes read_at
equals a b =
    if not (a.len == b.len)
    then some false
    else if a.len == 0
    then some true
    else do x ← read_at a.ptr 0 a.len; y ← read_at b.ptr 0 a.len; some (same_bytes x y)

-- The loop of d4np_str_view_split_next over the `n` bytes left, at index `i`: the index of the
-- separator, if there is one.
unfoldable pub find_sep : ℕ → ℕ → ℕ → Bytes → Option (Option ℕ)
find_sep sep i zero s = some none
find_sep sep i (suc n) [] = none
find_sep sep i (suc n) (c ∷ s) =
    let rest = find_sep sep (i + 1) n s in if c == sep then some (some i) else rest

-- What follows the loop: the field, and the view advanced.
unfoldable pub emit : View → Bytes → Option ℕ → View × View
emit sv start none = (record { ptr = none; len = 0 }, record { ptr = some start; len = sv.len })
emit sv start (some i) = (
  record { ptr = some (drop (add_size i 1) start); len = sub_size (sub_size sv.len i) 1 },
  record { ptr = some start; len = i },
)

-- d4np_str_view_split_next where neither `sv` nor `out` is NULL: the result, `*sv` and `*out`.
unfoldable pub split_from : View → ℕ → View → Option Bytes → Option (Bool × View × View)
unfolding find_sep emit
split_from sv sep out none = some (false, sv, out)
split_from sv sep out (some start) = do
  found ← find_sep sep 0 sv.len start
  let (sv', out') = emit sv start found in some (true, sv', out')

unfoldable pub split_next :
    Option View → ℕ → Option View → Option (Bool × Option View × Option View)
unfolding split_from
split_next none sep out = some (false, none, out)
split_next (some sv) sep none = some (false, some sv, none)
split_next (some sv) sep (some out) = do
  (more, sv', out') ← split_from sv sep out sv.ptr
  some (more, some sv', some out')

-- The store to out[count], if `out` is not NULL and has room by `max_out`.
unfoldable pub store : Option (List View) → ℕ → ℕ → View → Option (Option (List View))
store none max_out count token = some none
store (some out) max_out count token =
    if ltb count max_out
    then (if ltb count (length out) then some (some (set out count token)) else none)
    else some (some out)

-- The loop of d4np_str_split, on fuel.
unfoldable pub split_loop :
    ℕ → View → ℕ → View → Option (List View) → ℕ → ℕ → Option (ℕ × Option (List View))
unfolding split_from store
split_loop zero sv sep token out max_out count = none
split_loop (suc fuel) sv sep token out max_out count = do
  (more, sv', token') ← split_from sv sep token sv.ptr
  if more
      then (do
        out' ← store out max_out count token'
        split_loop fuel sv' sep token' out' max_out (add_size count 1))
      else some (count, out)

-- Each round but the last two takes a separator off the view. The token starts uninitialised.
unfoldable pub split : View → ℕ → Option (List View) → ℕ → Option (ℕ × Option (List View))
unfolding split_loop
split sv sep out max_out =
    split_loop (sv.len + 2) sv sep (record { ptr = none; len = 0 }) out max_out 0
