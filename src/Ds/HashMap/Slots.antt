-- ===== src/Ds/HashMap/Slots.antt =====
-- The slots of a hash map: their state, key and value, and how the stores of hashmap.c change them.
use egl_utils_c.Base.{
  ℕ, zero, suc, ◌+◌, ◌*◌, ◌≤◌, ◌<◌, ◌≡◌, ◌≢◌, refl, ap, ◌∙◌, arith, some, [], ◌∷◌, Bytes, length,
  get_elem?, get_or, size_mod, mul_size, mul_size_exact, bytes_of, overwrite, length-overwrite,
  next_slot-le, window, window-overwrite_ne, window-overwrite_self, read_at-bytes_of,
  write_at-block,
}
use egl_utils_c.Ds.HashMap.State.{
  HashMap, key_slot, value_slot, control_at, key_bytes, value_bytes, set_control, set_key,
  set_value, occupy,
}

get_or-overwrite_self :
    (b : Bytes) (i x : ℕ) → i < length b → get_or (overwrite i (x ∷ []) b) i 0 ≡ x
unfolding overwrite
get_or-overwrite_self [] i x h = absurd (omega arith)
get_or-overwrite_self (c ∷ b) zero x h = refl
get_or-overwrite_self (c ∷ b) (suc i) x h = get_or-overwrite_self b i x (omega arith)

get_or-overwrite_ne :
    (b : Bytes) (i j x : ℕ) → j ≢ i → get_or (overwrite i (x ∷ []) b) j 0 ≡ get_or b j 0
unfolding overwrite
get_or-overwrite_ne [] i j x ne = refl
get_or-overwrite_ne (c ∷ b) zero zero x ne = absurd (ne refl)
get_or-overwrite_ne (c ∷ []) zero (suc j) x ne = refl
get_or-overwrite_ne (c ∷ (d ∷ b)) zero (suc j) x ne = refl
get_or-overwrite_ne (c ∷ b) (suc i) zero x ne = refl
get_or-overwrite_ne (c ∷ b) (suc i) (suc j) x ne = get_or-overwrite_ne b i j x (λ e. ne (ap suc e))

get_elem?-get_or : (b : Bytes) (i : ℕ) → i < length b → get_elem? b i ≡ some (get_or b i 0)
get_elem?-get_or [] i h = absurd (omega arith)
get_elem?-get_or (c ∷ b) zero h = refl
get_elem?-get_or (c ∷ b) (suc i) h = get_elem?-get_or b i (omega arith)

-- The blocks have the sizes that the map's fields give, and the strides hold a key and a value.
pub record Sized (control keys values : Bytes)
    (key_size value_size key_stride value_stride capacity : ℕ) : Type 0 where
  pub control_len : length control ≡ capacity
  pub keys_len : length keys ≡ capacity * key_stride
  pub values_len : length values ≡ capacity * value_stride
  pub key_fits : key_size ≤ key_stride
  pub value_fits : value_size ≤ value_stride
  pub key_pos : 16 ≤ key_stride
  pub value_pos : 16 ≤ value_stride
  pub keys_lt : capacity * key_stride < size_mod
  pub values_lt : capacity * value_stride < size_mod

module _ {S : Type 0} where
  abbrev pub state : HashMap S → ℕ → ℕ
  state m i = get_or (bytes_of m.control) i 0

  abbrev pub key_at : HashMap S → ℕ → Bytes
  key_at m i = window m.key_stride m.key_size (bytes_of m.keys) i

  abbrev pub value_at : HashMap S → ℕ → Bytes
  value_at m i = window m.value_stride m.value_size (bytes_of m.values) i

  abbrev pub IsSized : HashMap S → Type 0
  IsSized m =
      Sized (bytes_of m.control) (bytes_of m.keys) (bytes_of m.values) m.key_size m.value_size
        m.key_stride m.value_stride m.capacity

  -- The map with slot `i` filled, with its state alone changed, with its value alone changed.
  abbrev pub filled : HashMap S → ℕ → Bytes → Bytes → HashMap S
  filled m i key value = record m {
    control = some (overwrite i (1 ∷ []) (bytes_of m.control));
    keys = some (overwrite (i * m.key_stride) key (bytes_of m.keys));
    values = some (overwrite (i * m.value_stride) value (bytes_of m.values));
  }

  abbrev pub marked : HashMap S → ℕ → ℕ → HashMap S
  marked m i st = record m { control = some (overwrite i (st ∷ []) (bytes_of m.control)) }

  abbrev pub revalued : HashMap S → ℕ → Bytes → HashMap S
  revalued m i value = record m {
    values = some (overwrite (i * m.value_stride) value (bytes_of m.values));
  }

  module _ (m : HashMap S) (sized : IsSized m) (i : ℕ) (lt : i < m.capacity) where
    key_room : i * m.key_stride + m.key_stride ≤ m.capacity * m.key_stride
    key_room = next_slot-le m.key_stride i m.capacity lt

    value_room : i * m.value_stride + m.value_stride ≤ m.capacity * m.value_stride
    value_room = next_slot-le m.value_stride i m.capacity lt

    key_slot-exact : mul_size i m.key_stride ≡ i * m.key_stride
    key_slot-exact =
        mul_size_exact i m.key_stride (omega (arith, key_room, sized.keys_lt, sized.key_pos))

    pub value_slot-exact : mul_size i m.value_stride ≡ i * m.value_stride
    value_slot-exact =
        mul_size_exact i m.value_stride
          (omega (arith, value_room, sized.values_lt, sized.value_pos))

    pub control_at-state : control_at m i ≡ some (state m i)
    unfolding control_at
    control_at-state = get_elem?-get_or (bytes_of m.control) i (omega (arith, sized.control_len))

    pub key_bytes-key_at : key_bytes m i ≡ some (key_at m i)
    unfolding key_bytes key_slot
    key_bytes-key_at = rw key_slot-exact (
        read_at-bytes_of m.keys (i * m.key_stride) m.key_size
          (omega (arith, key_room, sized.keys_len, sized.key_pos))
          (omega (arith, key_room, sized.keys_len, sized.key_fits)))

    pub value_bytes-value_at : value_bytes m i ≡ some (value_at m i)
    unfolding value_bytes value_slot
    value_bytes-value_at = rw value_slot-exact (
        read_at-bytes_of m.values (i * m.value_stride) m.value_size
          (omega (arith, value_room, sized.values_len, sized.value_pos))
          (omega (arith, value_room, sized.values_len, sized.value_fits)))

    pub set_control-marked : (st : ℕ) → set_control m i st ≡ some (marked m i st)
    unfolding set_control
    set_control-marked st =
        rw
          (write_at-block m.control i (st ∷ []) (omega (arith, sized.control_len))
            (omega (arith, sized.control_len)))
          refl

    pub set_value-revalued :
        (value : Bytes)
        → length value ≡ m.value_size
        → set_value m i value ≡ some (revalued m i value)
    unfolding set_value value_slot
    set_value-revalued value e =
        rw
          (
            value_slot-exact,
            write_at-block m.values (i * m.value_stride) value
                (omega (arith, value_room, sized.values_len, sized.value_pos))
                (omega (arith, value_room, sized.values_len, sized.value_fits)),
          )
          refl

    pub occupy-filled :
        (key value : Bytes)
        → length key ≡ m.key_size
        → length value ≡ m.value_size
        → occupy m i key value ≡ some (filled m i key value)
    unfolding occupy set_key set_value key_slot value_slot
    occupy-filled key value ek ev =
        rw
          (
            set_control-marked 1,
            key_slot-exact,
            write_at-block m.keys (i * m.key_stride) key
                (omega (arith, key_room, sized.keys_len, sized.key_pos))
                (omega (arith, key_room, sized.keys_len, sized.key_fits)),
            value_slot-exact,
            write_at-block m.values (i * m.value_stride) value
                (omega (arith, value_room, sized.values_len, sized.value_pos))
                (omega (arith, value_room, sized.values_len, sized.value_fits)),
          )
          refl

    pub filled-IsSized : (key value : Bytes) → IsSized (filled m i key value)
    filled-IsSized key value = record {
      control_len = length-overwrite i (1 ∷ []) (bytes_of m.control) ∙ sized.control_len;
      keys_len = length-overwrite (i * m.key_stride) key (bytes_of m.keys) ∙ sized.keys_len;
      values_len =
          length-overwrite (i * m.value_stride) value (bytes_of m.values) ∙ sized.values_len;
      key_fits = sized.key_fits;
      value_fits = sized.value_fits;
      key_pos = sized.key_pos;
      value_pos = sized.value_pos;
      keys_lt = sized.keys_lt;
      values_lt = sized.values_lt;
    }

    pub marked-IsSized : (st : ℕ) → IsSized (marked m i st)
    marked-IsSized st = record {
      control_len = length-overwrite i (st ∷ []) (bytes_of m.control) ∙ sized.control_len;
      keys_len = sized.keys_len;
      values_len = sized.values_len;
      key_fits = sized.key_fits;
      value_fits = sized.value_fits;
      key_pos = sized.key_pos;
      value_pos = sized.value_pos;
      keys_lt = sized.keys_lt;
      values_lt = sized.values_lt;
    }

    pub revalued-IsSized : (value : Bytes) → IsSized (revalued m i value)
    revalued-IsSized value = record {
      control_len = sized.control_len;
      keys_len = sized.keys_len;
      values_len =
          length-overwrite (i * m.value_stride) value (bytes_of m.values) ∙ sized.values_len;
      key_fits = sized.key_fits;
      value_fits = sized.value_fits;
      key_pos = sized.key_pos;
      value_pos = sized.value_pos;
      keys_lt = sized.keys_lt;
      values_lt = sized.values_lt;
    }

    pub state-marked_self : (st : ℕ) → state (marked m i st) i ≡ st
    state-marked_self st =
        get_or-overwrite_self (bytes_of m.control) i st (omega (arith, sized.control_len))

    pub state-marked_ne : (st j : ℕ) → j ≢ i → state (marked m i st) j ≡ state m j
    state-marked_ne st j ne = get_or-overwrite_ne (bytes_of m.control) i j st ne

    pub key_at-filled_self :
        (key value : Bytes) → length key ≡ m.key_size → key_at (filled m i key value) i ≡ key
    key_at-filled_self key value e =
        window-overwrite_self m.key_stride m.key_size (bytes_of m.keys) i key e
          (omega (arith, key_room, sized.keys_len, sized.key_fits))

    pub key_at-filled_ne :
        (key value : Bytes) (j : ℕ)
        → length key ≡ m.key_size
        → j ≢ i
        → key_at (filled m i key value) j ≡ key_at m j
    key_at-filled_ne key value j e ne =
        window-overwrite_ne m.key_stride m.key_size (bytes_of m.keys) j i key sized.key_fits
          (omega (arith, sized.key_fits)) ne

    pub value_at-revalued_self :
        (value : Bytes) → length value ≡ m.value_size → value_at (revalued m i value) i ≡ value
    value_at-revalued_self value e =
        window-overwrite_self m.value_stride m.value_size (bytes_of m.values) i value e
          (omega (arith, value_room, sized.values_len, sized.value_fits))

    pub value_at-revalued_ne :
        (value : Bytes) (j : ℕ)
        → length value ≡ m.value_size
        → j ≢ i
        → value_at (revalued m i value) j ≡ value_at m j
    value_at-revalued_ne value j e ne =
        window-overwrite_ne m.value_stride m.value_size (bytes_of m.values) j i value
          sized.value_fits (omega (arith, sized.value_fits)) ne
