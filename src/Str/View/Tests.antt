-- ===== src/Str/View/Tests.antt =====
-- Runs of str_view.c, and its theorems at concrete views.
use egl_utils_c.Base.{◌≡◌, refl, arith, Bool, false, none, some, [], ◌∷◌, Bytes}
use egl_utils_c.Str.View.{View, equals, split_from, split_next, split}
use egl_utils_c.Str.View.SplitNext.{IsReadable, Split, split_from-Split}
use egl_utils_c.Str.View.Split.{AllFields, split-AllFields}
use egl_utils_c.Str.View.Equals.{equals-Decides, Decides}

-- "a,b,"
abbrev line : Bytes
line = 97 ∷ 44 ∷ 98 ∷ 44 ∷ []

abbrev sv : View
sv = record { ptr = some line; len = 4 }

abbrev unset : View
unset = record { ptr = none; len = 0 }

sv-IsReadable : IsReadable sv
sv-IsReadable = record { start = line; at = refl; inside = omega arith; len_lt = omega arith }

split_run : split sv 44 none 0 ≡ some (3, none)
unfolding split
split_run = refl

split_next_null : split_next none 44 (some unset) ≡ some (false, none, some unset)
unfolding split_next
split_next_null = refl

split_from-Split_example : Split 44 sv (split_from sv 44 unset (some line))
split_from-Split_example = split_from-Split 44 sv unset sv-IsReadable

split-AllFields_example :
    AllFields 44 sv 2 0 (some (unset ∷ unset ∷ [])) (split sv 44 (some (unset ∷ unset ∷ [])) 2)
split-AllFields_example =
    split-AllFields 44 sv (some (unset ∷ unset ∷ [])) 2 sv-IsReadable (omega arith) (omega arith)

equals-Decides_example : (same : Bool) × (equals sv sv ≡ some same) × Decides line line same
equals-Decides_example = equals-Decides sv sv sv-IsReadable sv-IsReadable
