-- ===== src/Ds/HashMap/Change.antt =====
-- The stores that fill a slot, as a change of the table.
use egl_utils_c.Base.{ℕ, ◌<◌, ◌≡◌, Bool, Bytes, length}
use egl_utils_c.Ds.HashMap.State.{HashMap}
use egl_utils_c.Ds.HashMap.Slots.{
  IsSized, state, key_at, value_at, filled, state-marked_self, state-marked_ne, key_at-filled_self,
  key_at-filled_ne, value_at-revalued_self, value_at-revalued_ne,
}
use egl_utils_c.Ds.HashMap.Update.{Changes}

pub filled-Changes :
    {S : Type 0} (hash : Bytes → ℕ) (key_eq : Bytes → Bytes → Bool) (m : HashMap S)
    → IsSized m
    → (i : ℕ) → i < m.capacity
    → (k x : Bytes) → length k ≡ m.key_size
    → length x ≡ m.value_size
    → Changes hash key_eq m.capacity
        (state m)
        (state (filled m i k x))
        (key_at m)
        (key_at (filled m i k x))
        (value_at m)
        (value_at (filled m i k x))
        i
        1
        k
        x
filled-Changes hash key_eq m sized i lt k x ek ex = record {
  st_self = state-marked_self m sized i lt 1;
  key_self = key_at-filled_self m sized i lt k x ek;
  val_self = value_at-revalued_self m sized i lt x ex;
  st_ne = λ j ne. state-marked_ne m sized i lt 1 j ne;
  key_ne = λ j ne. key_at-filled_ne m sized i lt k x j ek ne;
  val_ne = λ j ne. value_at-revalued_ne m sized i lt x j ex ne;
}
