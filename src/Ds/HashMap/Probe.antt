-- ===== src/Ds/HashMap/Probe.antt =====
-- The probing loops of hashmap.c: `locate`, and the one of `resize` that places the old entries.
use egl_utils_c.Base.{
  ℕ, zero, suc, ◌+◌, Bool, true, false, ◌&&◌, Option, some, Bytes, ◌==◌, if◌then◌else◌, size_max,
  add_size, sub_size, bit_and, ◌>>=◌,
}
use egl_utils_c.Ds.HashMap.State.{
  HashMap, slot_empty, slot_occupied, slot_deleted, control_at, key_bytes, value_bytes, occupy,
}

abbrev pub pick : ℕ → ℕ → ℕ
pick first_tomb i = if first_tomb == size_max then i else first_tomb

module _ {S : Type 0} where
  -- st == SLOT_OCCUPIED && m->key_eq(key_slot(m, i), key, m->key_size)
  unfoldable pub holds_key : HashMap S → ℕ → ℕ → Bytes → Option Bool
  unfolding key_bytes
  holds_key m st i key =
      if st == slot_occupied then (do k ← key_bytes m i; some (m.key_eq k key)) else some false

  -- The loop of `locate`, over the `n` probes left. The result is the slot and `*found`.
  unfoldable pub locate_from : HashMap S → Bytes → ℕ → ℕ → ℕ → ℕ → Option (ℕ × Bool)
  unfolding control_at holds_key
  locate_from m key start zero probe first_tomb = some (pick first_tomb 0, false)
  locate_from m key start (suc n) probe first_tomb =
      let i = bit_and (add_size start probe) (sub_size m.capacity 1) in
      do
        st ← control_at m i
        if st == slot_empty then some (pick first_tomb i, false) else (do
          hit ← holds_key m st i key
          if hit
              then some (i, true)
              else locate_from m key start n (probe + 1)
                  (if st == slot_deleted && first_tomb == size_max then i else first_tomb))

  abbrev pub start_of : HashMap S → Bytes → ℕ
  start_of m key = bit_and (m.hash key) (sub_size m.capacity 1)

  unfoldable pub locate : HashMap S → Bytes → Option (ℕ × Bool)
  unfolding locate_from
  locate m key = locate_from m key (start_of m key) m.capacity 0 size_max

  -- The loop of `resize` that places one entry, over the `n` probes left.
  unfoldable pub place_from : HashMap S → HashMap S → ℕ → Bytes → ℕ → ℕ → ℕ → Option (HashMap S)
  unfolding control_at occupy value_bytes
  place_from old m i key start zero probe = some m
  place_from old m i key start (suc n) probe =
      let j = bit_and (add_size start probe) (sub_size m.capacity 1) in
      do
        st ← control_at m j
        if st == slot_empty
            then (do value ← value_bytes old i; occupy m j key value)
            else place_from old m i key start n (probe + 1)

  unfoldable pub place : HashMap S → HashMap S → ℕ → Option (HashMap S)
  unfolding key_bytes place_from
  place old m i = do key ← key_bytes old i; place_from old m i key (start_of m key) m.capacity 0

  -- The loop of `resize` over the old slots, the `n` from `i` on.
  unfoldable pub reinsert : HashMap S → ℕ → ℕ → HashMap S → Option (HashMap S)
  unfolding control_at place
  reinsert old zero i m = some m
  reinsert old (suc n) i m = do
    st ← control_at old i
    m' ← if st == slot_occupied then place old m i else some m
    reinsert old n (i + 1) m'
