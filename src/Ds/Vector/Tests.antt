-- ===== src/Ds/Vector/Tests.antt =====
-- Runs of vector.c, and its theorems at concrete vectors.
use egl_utils_c.Base.{
  ℕ, ◌≡◌, ◌⊎◌, refl, arith, none, some, [], ◌∷◌, Bytes, Ensures, get_elem?, read_at,
}
use egl_utils_c.Core.Status.{ok}
use egl_utils_c.Core.Allocator.{IsAllocator, or_default, realloc, default_realloc}
use egl_utils_c.Core.Default.{default-IsAllocator}
use egl_utils_c.Core.Model.{model_libc, model_lawful, model_laws}
use egl_utils_c.Ds.Vector.{Vector, push, pop, at, reserve_live}
use egl_utils_c.Ds.Vector.Contents.{IsValid, contents}
use egl_utils_c.Ds.Vector.Reserve.{Reserved, reserve-Reserved}
use egl_utils_c.Ds.Vector.Push.{Pushed, push-Pushed}
use egl_utils_c.Ds.Vector.Access.{Popped, pop-Popped, at-get_elem?}

abbrev zeroed : Vector ℕ
zeroed = record { allocator = none; block = none; elem_size = 2; len = 0; capacity = 0 }

-- Full: two elements of two bytes in a block for two.
abbrev pair : Vector ℕ
pair = record {
  allocator = none;
  block = some (1 ∷ 2 ∷ 3 ∷ 4 ∷ []);
  elem_size = 2;
  len = 2;
  capacity = 2;
}

pair-IsValid : IsValid model_libc pair
pair-IsValid = record {
  lawful = model_lawful;
  elem_pos = omega arith;
  len_le = omega arith;
  fits = omega arith;
  holds = refl;
}

contents-pair : contents pair ≡ (1 ∷ 2 ∷ []) ∷ (3 ∷ 4 ∷ []) ∷ []
contents-pair = refl

push_grows :
    push model_libc (some pair) (some (5 ∷ 6 ∷ [])) 1
    ≡ some (
      ok,
      some (record pair {
        block = some (1 ∷ 2 ∷ 3 ∷ 4 ∷ 5 ∷ 6 ∷ 0 ∷ 0 ∷ []);
        len = 3;
        capacity = 4;
      }),
      1,
    )
unfolding push realloc default_realloc
push_grows = refl

reserve-Reserved_example : Reserved model_libc pair 5 (reserve_live model_libc pair 5 1)
reserve-Reserved_example = reserve-Reserved model_libc pair 5 1 pair-IsValid

push-Pushed_example :
    Ensures
      (Pushed model_libc pair (5 ∷ 6 ∷ []))
      (push model_libc (some pair) (some (5 ∷ 6 ∷ [])) 1)
push-Pushed_example = push-Pushed model_libc pair (5 ∷ 6 ∷ []) 1 pair-IsValid (omega arith) refl

pop-Popped_example :
    Ensures
      (Popped model_libc pair (some (0 ∷ 0 ∷ 0 ∷ [])))
      (pop (some pair) (some (0 ∷ 0 ∷ 0 ∷ [])))
pop-Popped_example = pop-Popped model_libc pair (some (0 ∷ 0 ∷ 0 ∷ [])) pair-IsValid (omega arith)

at-get_elem?_example :
    ((at (some pair) 1 ≡ none) × (get_elem? (contents pair) 1 ≡ none))
    ⊎ ((p : ℕ) × (x : Bytes) × (at (some pair) 1 ≡ some p)
        × (get_elem? (contents pair) 1 ≡ some x)
        × (read_at pair.block p pair.elem_size ≡ some x))
at-get_elem?_example = at-get_elem? model_libc pair 1 pair-IsValid

default-IsAllocator_example : IsAllocator model_libc.address (or_default model_libc none)
default-IsAllocator_example = default-IsAllocator model_libc model_laws
