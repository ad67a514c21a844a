-- ===== src/Io/Combine/Tests.antt =====
-- Runs of d4np_path_combine, and its theorem at two strings.
use egl_utils_c.Base.{ℕ, ◌≡◌, refl, arith, some, [], ◌∷◌, ◌++◌, Bytes, length}
use egl_utils_c.Str.View.{strlen}
use egl_utils_c.Io.Combine.{path_combine}
use egl_utils_c.Io.Combine.Trim.{TrimsEnd, TrimsStart}
use egl_utils_c.Io.Combine.Joined.{IsString, joined, ended, path_combine-joined}

-- "a/" and "/b"
abbrev left_path : Bytes
left_path = 97 ∷ 47 ∷ []

abbrev right_path : Bytes
right_path = 47 ∷ 98 ∷ []

abbrev buffer : Bytes
buffer = 9 ∷ 9 ∷ 9 ∷ []

-- "a/b", cut to a buffer of three bytes
combine_run :
    path_combine (some buffer) 3 (some (left_path ++ (0 ∷ []))) (some (right_path ++ (0 ∷ [])))
    ≡ some (3, some (97 ∷ 47 ∷ 0 ∷ []))
unfolding path_combine strlen
combine_run = refl

left-IsString : IsString (some (left_path ++ (0 ∷ []))) left_path
left-IsString = record { rest = []; at = refl; no_nul = (omega arith, (omega arith, tt)) }

right-IsString : IsString (some (right_path ++ (0 ∷ []))) right_path
right-IsString = record { rest = []; at = refl; no_nul = (omega arith, (omega arith, tt)) }

path_combine-joined_example :
    (k : ℕ) × (j : ℕ) × TrimsEnd left_path 2 k
    × TrimsStart right_path j
    × (path_combine (some buffer) 3 (some (left_path ++ (0 ∷ []))) (some (right_path ++ (0 ∷ [])))
        ≡ some (
          length (joined left_path k right_path j),
          ended (some buffer) 3 (joined left_path k right_path j),
        ))
path_combine-joined_example =
    path_combine-joined (some buffer) 3 (some (left_path ++ (0 ∷ [])))
      (some (right_path ++ (0 ∷ []))) left_path right_path left-IsString right-IsString
      (omega arith) (omega arith)
