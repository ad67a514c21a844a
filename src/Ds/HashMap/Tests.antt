-- ===== src/Ds/HashMap/Tests.antt =====
-- Runs of hashmap.c, and its theorems at concrete maps.
use egl_utils_c.Base.{
  ℕ, zero, suc, ◌≡◌, refl, arith, Bool, true, Option, none, some, [], ◌∷◌, replicate, inl, inr,
}
use egl_utils_c.Core.Status.{Status}
use egl_utils_c.Core.Model.{model_libc, model_lawful}
use egl_utils_c.Ds.HashMap.State.{HashMap, default_key_eq}
use egl_utils_c.Ds.HashMap.Methods.{init, put, get, remove}
use egl_utils_c.Ds.HashMap.Count.{count, IsState}
use egl_utils_c.Ds.HashMap.Slots.{state}
use egl_utils_c.Ds.HashMap.Table.{IsKeyEq}
use egl_utils_c.Ds.HashMap.Valid.{IsValid, find, PointsTo, get-PointsTo}
use egl_utils_c.Ds.HashMap.Store.{Removed, remove-Removed}
use egl_utils_c.Ds.HashMap.Grow.{get_or-replicate}
use egl_utils_c.Ds.HashMap.Put.{Put, put-Put}
use egl_utils_c.Ds.HashMap.Lifetime.{Initialised, default-IsKeyEq, map_init-IsEmpty}

-- One key of two bytes in the first of eight slots, with a hash that sends all keys there.
abbrev one_entry : HashMap ℕ
one_entry = record {
  allocator = none;
  control = some (1 ∷ replicate 7 0);
  keys = some (1 ∷ 2 ∷ replicate 126 0);
  values = some (3 ∷ replicate 127 0);
  key_size = 2;
  value_size = 1;
  key_stride = 16;
  value_stride = 16;
  capacity = 8;
  len = 1;
  tombstones = 0;
  hash = λ key. 0;
  key_eq = default_key_eq;
}

constant-IsKeyEq : IsKeyEq (λ key. 0) default_key_eq
constant-IsKeyEq = record {
  eq_refl = default-IsKeyEq.eq_refl;
  eq_sym = default-IsKeyEq.eq_sym;
  eq_trans = default-IsKeyEq.eq_trans;
  hash_congr = λ a b h. refl;
}

first_state : (j : ℕ) → IsState (state one_entry j)
first_state zero = inr (inl refl)
first_state (suc j) = inl (get_or-replicate 7 j)

first_only : (j : ℕ) → state one_entry j ≡ 1 → j ≡ 0
first_only zero one = refl
first_only (suc j) one = absurd (omega (arith, get_or-replicate 7 j, one))

one_entry-IsValid : IsValid model_libc one_entry
unfolding count
one_entry-IsValid = record {
  lawful = model_lawful;
  ops = constant-IsKeyEq;
  sized = record {
    control_len = refl;
    keys_len = refl;
    values_len = refl;
    key_fits = omega arith;
    value_fits = omega arith;
    key_pos = omega arith;
    value_pos = omega arith;
    keys_lt = omega arith;
    values_lt = omega arith;
  };
  entries = record {
    states = λ j lt. first_state j;
    chain = λ j lt one. record {
      steps = 0;
      steps_lt = omega arith;
      there = omega (arith, first_only j one);
      full = λ q below. absurd (omega arith);
    };
    unique = λ i j lt lt' one one' eq. omega (arith, first_only i one, first_only j one');
  };
  len_count = refl;
  tomb_count = refl;
  room =
      inr
        (record { bits = 3; pow = refl; small = omega arith; positive = omega arith }, omega arith);
}

get_run : get (some one_entry) (some (1 ∷ 2 ∷ [])) ≡ some (some 0)
unfolding get default_key_eq
get_run = refl

remove_run :
    remove (some one_entry) (some (1 ∷ 2 ∷ []))
    ≡ some (
      true,
      some (record one_entry { control = some (2 ∷ replicate 7 0); len = 0; tombstones = 1 }),
    )
unfolding remove default_key_eq
remove_run = refl

get-PointsTo_example :
    PointsTo model_libc one_entry one_entry-IsValid
      (find one_entry (1 ∷ 2 ∷ []))
      (get (some one_entry) (some (1 ∷ 2 ∷ [])))
get-PointsTo_example =
    get-PointsTo model_libc one_entry one_entry-IsValid (1 ∷ 2 ∷ []) (omega arith)

remove-Removed_example :
    (r : Bool × Option (HashMap ℕ)) × (remove (some one_entry) (some (1 ∷ 2 ∷ [])) ≡ some r)
    × Removed model_libc one_entry one_entry-IsValid (1 ∷ 2 ∷ []) r
remove-Removed_example =
    remove-Removed model_libc one_entry one_entry-IsValid (1 ∷ 2 ∷ []) (omega arith)

put-Put_example :
    (r : Status × Option (HashMap ℕ) × ℕ) × (put model_libc
        (some one_entry)
        (some (5 ∷ 6 ∷ []))
        (some (7 ∷ []))
        1
      ≡ some r)
    × Put model_libc one_entry one_entry-IsValid (5 ∷ 6 ∷ []) (7 ∷ []) r
put-Put_example =
    put-Put model_libc one_entry one_entry-IsValid (5 ∷ 6 ∷ []) (7 ∷ []) 1 (omega arith)
      (omega arith)

map_init-IsEmpty_example :
    (r : Status × Option (HashMap ℕ) × ℕ) × (init model_libc
        (some one_entry)
        none
        2
        1
        20
        none
        none
        0
      ≡ some r)
    × Initialised model_libc one_entry 2 1 20 r
map_init-IsEmpty_example =
    map_init-IsEmpty model_libc one_entry none 2 1 20 none none 0 model_lawful default-IsKeyEq
      (omega arith) (omega arith)
