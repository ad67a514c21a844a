-- ===== src/Ds/StringBuilder/Tests.antt =====
-- Runs of string_builder.c, and its theorems at concrete builders.
use egl_utils_c.Base.{ℕ, ◌+◌, ◌≡◌, refl, arith, none, some, [], ◌∷◌, ◌++◌, inr, take}
use egl_utils_c.Core.Status.{ok}
use egl_utils_c.Core.Allocator.{realloc, default_realloc}
use egl_utils_c.Core.Model.{model_libc, model_lawful}
use egl_utils_c.Str.View.{View}
use egl_utils_c.Str.View.SplitNext.{text, IsReadable}
use egl_utils_c.Ds.StringBuilder.{Builder, ensure, append_view, append_char, cstr, view}
use egl_utils_c.Ds.StringBuilder.Ensure.{IsOpen, Ensured, ensure-Ensured}
use egl_utils_c.Ds.StringBuilder.Append.{
  IsValid, Appended, append_view-Appended, append_char-Appended,
}
use egl_utils_c.Ds.StringBuilder.Lifetime.{cstr-contents}

-- "a" in a block of three bytes
abbrev sb : Builder ℕ
sb = record { allocator = none; data_ptr = some (97 ∷ 0 ∷ 7 ∷ []); len = 1; capacity = 3 }

sb-IsOpen : IsOpen model_libc sb
sb-IsOpen = record {
  lawful = model_lawful;
  block = refl;
  len_le = omega arith;
  capacity_lt = omega arith;
}

sb-IsValid : IsValid model_libc sb
sb-IsValid = record { shape = sb-IsOpen; ended = inr refl }

-- "bcd"
abbrev bcd : View
bcd = record { ptr = some (98 ∷ 99 ∷ 100 ∷ []); len = 3 }

bcd-IsReadable : IsReadable bcd
bcd-IsReadable = record {
  start = 98 ∷ 99 ∷ 100 ∷ [];
  at = refl;
  inside = omega arith;
  len_lt = omega arith;
}

append_run :
    append_view model_libc (some sb) bcd 1
    ≡ some (
      ok,
      some (record sb { data_ptr = some (97 ∷ 98 ∷ 99 ∷ 100 ∷ 0 ∷ 0 ∷ []); len = 4; capacity = 6 }),
      1,
    )
unfolding append_view realloc default_realloc
append_run = refl

ensure-Ensured_example : Ensured model_libc sb 9 (ensure model_libc sb 9 1)
ensure-Ensured_example = ensure-Ensured model_libc sb 9 1 sb-IsOpen (omega arith)

append_view-Appended_example :
    Appended model_libc sb (98 ∷ 99 ∷ 100 ∷ []) (append_view model_libc (some sb) bcd 1)
append_view-Appended_example = append_view-Appended model_libc sb bcd 1 sb-IsValid bcd-IsReadable

append_char-Appended_example :
    Appended model_libc sb (98 ∷ []) (append_char model_libc (some sb) 98 1)
append_char-Appended_example = append_char-Appended model_libc sb 98 1 sb-IsValid (omega arith)

cstr-contents_example :
    (take (1 + 1) (cstr (some sb)) ≡ (97 ∷ []) ++ (0 ∷ [])) × (text (view (some sb)) ≡ 97 ∷ [])
cstr-contents_example = cstr-contents model_libc sb sb-IsValid
