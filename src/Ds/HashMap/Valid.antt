-- ===== src/Ds/HashMap/Valid.antt =====
-- The invariant of a hash map, and the functions that read it or take a key out.
use egl_utils_c.Base.{
  ℕ, ◌+◌, ◌≤◌, ◌<◌, ◌≡◌, refl, sym, ap, ◌∙◌, arith, true, false, Option, none, some, Bytes, length,
  take, drop, ◌==◌, inl, inr, ◌⊎◌, bytes_of, read_at, le→leb,
}
use egl_utils_c.Core.Allocator.{Libc, IsAllocator, or_default}
use egl_utils_c.Ds.HashMap.State.{HashMap, value_slot}
use egl_utils_c.Ds.HashMap.Probe.{locate}
use egl_utils_c.Ds.HashMap.Methods.{get}
use egl_utils_c.Ds.HashMap.Slots.{IsSized, state, value_at, value_slot-exact}
use egl_utils_c.Ds.HashMap.Count.{count, empty_slot}
use egl_utils_c.Ds.HashMap.Table.{table, IsKeyEq, IsTable, Lacks, Hit, lookup}
use egl_utils_c.Ds.HashMap.Lookup.{Answers-lookup}
use egl_utils_c.Ds.HashMap.Locate.{IsMasked, Located, locate-Located}

-- A map without slots, or with a power of two of them, not all of them occupied or deleted.
abbrev pub HasRoom : {S : Type 0} → HashMap S → Type 0
HasRoom m = (m.capacity ≡ 0) ⊎ (IsMasked m.capacity × (m.len + m.tombstones < m.capacity))

pub record IsValid {S : Type 0} (libc : Libc S) (m : HashMap S) : Type 0 where
  pub lawful : IsAllocator libc.address (or_default libc m.allocator)
  pub ops : IsKeyEq m.hash m.key_eq
  pub sized : IsSized m
  pub entries : IsTable m.hash m.key_eq (table m)
  pub len_count : m.len ≡ count 1 (state m) m.capacity
  pub tomb_count : m.tombstones ≡ count 2 (state m) m.capacity
  pub room : HasRoom m

-- The value that a map has for a key, by a search through all its slots.
abbrev pub find : {S : Type 0} → HashMap S → Bytes → Option Bytes
find m q = lookup m.key_eq (table m) q

-- The `n` bytes at a pointer.
pub read_at-front : (b : Bytes) (n : ℕ) → n ≤ length b → read_at (some b) 0 n ≡ some (take n b)
unfolding read_at
read_at-front b n h = rw (le→leb (0 + n) (length b) (omega arith)) refl

module _ {S : Type 0} (libc : Libc S) (m : HashMap S) (v : IsValid libc m) where
  pub locate_valid :
      (q : Bytes)
      → IsMasked m.capacity
      → m.len + m.tombstones < m.capacity
      → Located m.hash m.key_eq (table m) q (locate m q)
  locate_valid q masked less =
      let (e, e_lt, empty) =
        empty_slot (state m) m.capacity v.entries.states
          (omega (arith, v.len_count, v.tomb_count)) in
      locate-Located m q v.sized masked v.ops v.entries e e_lt empty

  pub find-Hit : (q : Bytes) (i : ℕ) → Hit m.key_eq (table m) q i → find m q ≡ some (value_at m i)
  find-Hit q i hit =
      Answers-lookup m.hash m.key_eq (table m) q _ v.ops v.entries (inr (i, hit, refl))

  pub find-Lacks : (q : Bytes) → Lacks m.key_eq (table m) q → find m q ≡ none
  find-Lacks q lacks =
      Answers-lookup m.hash m.key_eq (table m) q _ v.ops v.entries (inl (refl, lacks))

  pub find-zero : (q : Bytes) → m.capacity ≡ 0 → find m q ≡ none
  find-zero q e = find-Lacks q (λ j lt. absurd (omega arith))

  -- The pointer that d4np_hashmap_get returns: NULL where the map has no value, or the offset of it.
  abbrev pub PointsTo : Option Bytes → Option (Option ℕ) → Type 0
  PointsTo found r =
      ((found ≡ none) × (r ≡ some none))
      ⊎ ((off : ℕ) × (r ≡ some (some off))
          × (found ≡ some (take m.value_size (drop off (bytes_of m.values)))))

  -- d4np_hashmap_get on a valid map returns a pointer to the value that the map has for the key, or
  -- NULL if it has none.
  pub get-PointsTo :
      (key : Bytes)
      → m.key_size ≤ length key
      → PointsTo (find m (take m.key_size key)) (get (some m) (some key))
  unfolding get value_slot
  get-PointsTo key h = elim v.room [
    | inl no_slots ↦
        let test : (m.capacity == 0) ≡ true = ground arith in
        rw test (inl (find-zero (take m.key_size key) no_slots, refl))
    | inr (masked, less) ↦
        let test : (m.capacity == 0) ≡ false = ground arith in
        let (i, found) = locate_valid (take m.key_size key) masked less in
        rw (test, read_at-front key m.key_size h)
          (elim found [
            | inl (e, hit) ↦ rw e (
                inr (
                  _,
                  refl,
                  find-Hit (take m.key_size key) i hit
                      ∙ ap (λ off. some (take m.value_size (drop off (bytes_of m.values))))
                          (sym (value_slot-exact m v.sized i hit.0)),
                ))
            | inr (e, miss) ↦ rw e (inl (find-Lacks (take m.key_size key) miss.lacks, refl))
          ])
  ]
