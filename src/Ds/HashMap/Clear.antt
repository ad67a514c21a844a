-- ===== src/Ds/HashMap/Clear.antt =====
-- d4np_hashmap_clear and d4np_hashmap_destroy on a valid map.
use egl_utils_c.Base.{
  ℕ, ◌≡◌, refl, sym, ap, ◌∙◌, arith, Option, none, some, Bytes, length, length-replicate, inl, inr,
  mul_size, mul_size_exact, bytes_of,
}
use egl_utils_c.Core.Allocator.{Libc, free}
use egl_utils_c.Ds.HashMap.State.{HashMap, slot_empty}
use egl_utils_c.Ds.HashMap.Methods.{destroy, destroy_blocks, clear, clear_control}
use egl_utils_c.Ds.HashMap.Slots.{state}
use egl_utils_c.Ds.HashMap.Count.{count, count-zero}
use egl_utils_c.Ds.HashMap.Valid.{IsValid, find-Lacks, find-zero}
use egl_utils_c.Ds.HashMap.Grow.{zeros, get_or-replicate, write_at-replicate}
use egl_utils_c.Ds.HashMap.Lifetime.{IsEmpty}

module _ {S : Type 0} (libc : Libc S) where
  zeroed-IsEmpty :
      (m : HashMap S)
      → IsValid libc m
      → IsEmpty libc (record m { control = some (zeros m.capacity); len = 0; tombstones = 0 })
  zeroed-IsEmpty m v =
      let free_slot = λ (j : ℕ). get_or-replicate m.capacity j in
      let valid : IsValid libc
          (record m { control = some (zeros m.capacity); len = 0; tombstones = 0 }) =
        record {
          lawful = v.lawful;
          ops = v.ops;
          sized = record {
            control_len = length-replicate m.capacity slot_empty;
            keys_len = v.sized.keys_len;
            values_len = v.sized.values_len;
            key_fits = v.sized.key_fits;
            value_fits = v.sized.value_fits;
            key_pos = v.sized.key_pos;
            value_pos = v.sized.value_pos;
            keys_lt = v.sized.keys_lt;
            values_lt = v.sized.values_lt;
          };
          entries = record {
            states = λ j lt. inl (free_slot j);
            chain = λ j lt one. absurd (omega (arith, free_slot j, one));
            unique = λ i j lt lt' one one' eq. absurd (omega (arith, free_slot i, one));
          };
          len_count = sym (count-zero 1 _ _ (λ j lt one. absurd (omega (arith, free_slot j, one))));
          tomb_count =
              sym (count-zero 2 _ _ (λ j lt two. absurd (omega (arith, free_slot j, two))));
          room = (elim v.room [
            | inl e ↦ inl e
            | inr (masked, less) ↦ inr (masked, omega (arith, masked.positive))
          ]);
        } in
      (
        valid,
        refl,
        λ q. find-Lacks libc _ valid q (λ j lt one. absurd (omega (arith, free_slot j, one))),
      )

  clear_control-IsEmpty :
      (m : HashMap S) (control : Option Bytes)
      → IsValid libc m
      → m.control ≡ control
      → (m' : HashMap S) × (clear_control m control ≡ some m')
        × IsEmpty libc m'
        × (m'.capacity ≡ m.capacity)
  unfolding clear_control count
  clear_control-IsEmpty m none v e =
      let no_slots : m.capacity ≡ 0 = sym v.sized.control_len ∙ ap (λ o. length (bytes_of o)) e in
      let no_len : m.len ≡ 0 = v.len_count ∙ ap (count 1 (state m)) no_slots in
      (m, refl, (v, no_len, λ q. find-zero libc m v q no_slots), refl)
  clear_control-IsEmpty m (some c) v e =
      let len : length c ≡ m.capacity =
        sym (ap (λ o. length (bytes_of o)) e) ∙ v.sized.control_len in
      rw (write_at-replicate m.capacity c len) (_, refl, zeroed-IsEmpty m v, refl)

  -- d4np_hashmap_clear on a valid map empties it and keeps its slots.
  pub clear-IsEmpty :
      (m : HashMap S)
      → IsValid libc m
      → (m' : HashMap S) × (clear (some m) ≡ some (some m'))
        × IsEmpty libc m'
        × (m'.capacity ≡ m.capacity)
  unfolding clear
  clear-IsEmpty m v =
      let (m', done, empty, size) = clear_control-IsEmpty m m.control v refl in
      (m', rw done refl, empty, size)

  -- d4np_hashmap_destroy on a valid map with slots frees the three blocks once, each with its size,
  -- and a second call changes nothing.
  pub map_destroy_frees :
      (m : HashMap S) (c k x : Bytes) (s : S)
      → IsValid libc m
      → m.control ≡ some c
      → m.keys ≡ some k
      → m.values ≡ some x
      → let (out, s') = destroy libc (some m) s in
        (s'
          ≡ free libc m.allocator (some x) (length x) (
              free libc m.allocator
                (some k)
                (length k)
                (free libc m.allocator (some c) (length c) s)))
        × (destroy libc out s' ≡ (out, s'))
  unfolding destroy
  map_destroy_frees m c k x s v ec ek ex = rw done (refl, refl)
    where
      gone : HashMap S
      gone = record m {
        control = none;
        keys = none;
        values = none;
        capacity = 0;
        len = 0;
        tombstones = 0;
      }

      c_size : m.capacity ≡ length c
      c_size = sym v.sized.control_len ∙ ap (λ o. length (bytes_of o)) ec

      k_size : mul_size m.capacity m.key_stride ≡ length k
      k_size =
          mul_size_exact _ _ v.sized.keys_lt
          ∙ sym v.sized.keys_len
          ∙ ap (λ o. length (bytes_of o)) ek

      x_size : mul_size m.capacity m.value_stride ≡ length x
      x_size =
          mul_size_exact _ _ v.sized.values_lt
          ∙ sym v.sized.values_len
          ∙ ap (λ o. length (bytes_of o)) ex

      done : destroy_blocks libc m m.control s ≡ (
        gone,
        free libc m.allocator (some x) (length x) (
            free libc m.allocator
              (some k)
              (length k)
              (free libc m.allocator (some c) (length c) s)),
      )
      done = ap (λ o. destroy_blocks libc m o s) ec ∙ (λ i. (
        gone,
        free libc m.allocator (ex i) (x_size i)
            (free libc m.allocator (ek i) (k_size i) (free libc m.allocator (some c) (c_size i) s)),
      ))
