-- ===== src/Ds/HashMap/Store.antt =====
-- The stores of d4np_hashmap_put and d4np_hashmap_remove in the slot that `locate` gives.
use egl_utils_c.Base.{
  ℕ, ◌+◌, ◌-◌, ◌≤◌, ◌<◌, ◌≡◌, ◌≢◌, refl, sym, ap, ◌∙◌, arith, Bool, true, false, Option, none, some,
  Bytes, length, take, ◌==◌, if◌then◌else◌, Bool-cases, inl, inr, ◌⊎◌, add_size, sub_size,
}
use egl_utils_c.Core.Allocator.{Libc}
use egl_utils_c.Ds.HashMap.State.{HashMap}
use egl_utils_c.Ds.HashMap.Methods.{store, remove}
use egl_utils_c.Ds.HashMap.Slots.{
  state, key_at, value_at, filled, marked, revalued, control_at-state, set_control-marked,
  set_value-revalued, occupy-filled, filled-IsSized, marked-IsSized, revalued-IsSized,
  state-marked_self, state-marked_ne, value_at-revalued_self, value_at-revalued_ne,
}
use egl_utils_c.Ds.HashMap.Count.{one_if, count_change}
use egl_utils_c.Ds.HashMap.Table.{table, IsTable, Lacks, Hit, Miss}
use egl_utils_c.Ds.HashMap.Update.{Changes, fill-IsTable, delete-IsTable}
use egl_utils_c.Ds.HashMap.Change.{filled-Changes}
use egl_utils_c.Ds.HashMap.Answer.{fill-lookup, delete-lookup, revalue-lookup}
use egl_utils_c.Ds.HashMap.Locate.{IsMasked}
use egl_utils_c.Ds.HashMap.Valid.{IsValid, find, read_at-front, locate_valid, find-Hit, find-Lacks}

-- The states of two slots count apart.
is_one : (s : ℕ) → s ≡ 1 → (one_if (s == 1) ≡ 1) × (one_if (s == 2) ≡ 0)
is_one s e = (ap (λ k. one_if (k == 1)) e, ap (λ k. one_if (k == 2)) e)

is_two : (s : ℕ) → s ≡ 2 → (one_if (s == 1) ≡ 0) × (one_if (s == 2) ≡ 1)
is_two s e = (ap (λ k. one_if (k == 1)) e, ap (λ k. one_if (k == 2)) e)

not_one : (s : ℕ) → s ≢ 1 → one_if (s == 1) ≡ 0
not_one s ne = let test : (s == 1) ≡ false = ground arith in rw test refl

module _ {S : Type 0} (libc : Libc S) (m : HashMap S) (v : IsValid libc m) where
  -- What a change of slot `i` leaves where only the blocks and the two counts differ.
  module _ (i : ℕ) (lt : i < m.capacity) where
    fill-Changes :
        (k x : Bytes)
        → length k ≡ m.key_size
        → length x ≡ m.value_size
        → Changes m.hash m.key_eq m.capacity
            (state m)
            (state (filled m i k x))
            (key_at m)
            (key_at (filled m i k x))
            (value_at m)
            (value_at (filled m i k x))
            i
            1
            k
            x
    fill-Changes = filled-Changes m.hash m.key_eq m v.sized i lt

    delete-Changes :
        Changes m.hash m.key_eq m.capacity
          (state m)
          (state (marked m i 2))
          (key_at m)
          (key_at m)
          (value_at m)
          (value_at m)
          i
          2
          (key_at m i)
          (value_at m i)
    delete-Changes = record {
      st_self = state-marked_self m v.sized i lt 2;
      key_self = refl;
      val_self = refl;
      st_ne = λ j ne. state-marked_ne m v.sized i lt 2 j ne;
      key_ne = λ j ne. refl;
      val_ne = λ j ne. refl;
    }

    revalue-Changes :
        (x : Bytes)
        → length x ≡ m.value_size
        → state m i ≡ 1
        → Changes m.hash m.key_eq m.capacity
            (state m)
            (state m)
            (key_at m)
            (key_at m)
            (value_at m)
            (value_at (revalued m i x))
            i
            1
            (key_at m i)
            x
    revalue-Changes x ex one = record {
      st_self = one;
      key_self = refl;
      val_self = value_at-revalued_self m v.sized i lt x ex;
      st_ne = λ j ne. refl;
      key_ne = λ j ne. refl;
      val_ne = λ j ne. value_at-revalued_ne m v.sized i lt x j ex ne;
    }

    revalued-IsTable : (x : Bytes) → IsTable m.hash m.key_eq (table (revalued m i x))
    revalued-IsTable x = record {
      states = v.entries.states;
      chain = λ j j_lt one.
          let r = v.entries.chain j j_lt one in
          record { steps = r.steps; steps_lt = r.steps_lt; there = r.there; full = r.full };
      unique = v.entries.unique;
    }

  -- What a put leaves behind: a valid map that has the value for the key, and for every other key
  -- what it had.
  abbrev pub Holds : Bytes → Bytes → HashMap S → Type 0
  Holds k x m' =
      IsValid libc m' × ((q : Bytes) → find m' q ≡ (if m.key_eq k q then some x else find m q))

  revalue-Holds :
      (k x : Bytes) (i : ℕ)
      → length x ≡ m.value_size
      → Hit m.key_eq (table m) k i
      → Holds k x (revalued m i x)
  revalue-Holds k x i ex hit = (
    record {
      lawful = v.lawful;
      ops = v.ops;
      sized = revalued-IsSized m v.sized i hit.0 x;
      entries = revalued-IsTable i hit.0 x;
      len_count = v.len_count;
      tomb_count = v.tomb_count;
      room = v.room;
    },
    λ q.
        revalue-lookup m.hash m.key_eq m.capacity (state m) (state m) (key_at m) (key_at m)
          (value_at m) (value_at (revalued m i x)) v.ops v.entries i k x q hit
          (revalued-IsTable i hit.0 x) (revalue-Changes i hit.0 x ex hit.1),
  )

  -- The map after a key was put in a free slot, with the count of deleted slots `tombs`.
  abbrev grown_by : ℕ → Bytes → Bytes → ℕ → HashMap S
  grown_by i k x tombs = record (filled (record m { tombstones = tombs }) i k x) {
    len = add_size m.len 1;
  }

  fill-Holds :
      (k x : Bytes) (i tombs : ℕ)
      → length k ≡ m.key_size
      → length x ≡ m.value_size
      → IsMasked m.capacity
      → m.len + m.tombstones + 1 < m.capacity
      → Miss m.hash m.key_eq (table m) k i
      → tombs + one_if (state m i == 2) ≡ m.tombstones
      → Holds k x (grown_by i k x tombs)
  fill-Holds k x i tombs ek ex masked space miss left =
      let change = fill-Changes i miss.inside k x ek ex in
      let now_one = is_one (state (filled m i k x) i) change.st_self in
      let was_free = not_one (state m i) miss.vacant in
      let up : add_size m.len 1 ≡ m.len + 1 = omega (arith, masked.small) in
      let ones =
        count_change 1 (state m) (state (filled m i k x)) m.capacity i miss.inside change.st_ne in
      let twos =
        count_change 2 (state m) (state (filled m i k x)) m.capacity i miss.inside change.st_ne in
      (
        record {
          lawful = v.lawful;
          ops = v.ops;
          sized = filled-IsSized m v.sized i miss.inside k x;
          entries =
              fill-IsTable m.hash m.key_eq m.capacity (state m) (state (filled m i k x)) (key_at m)
                (key_at (filled m i k x)) (value_at m) (value_at (filled m i k x)) v.ops v.entries i
                k x miss change;
          len_count = omega (arith, up, ones, now_one.0, was_free, v.len_count);
          tomb_count = omega (arith, twos, now_one.1, left, v.tomb_count);
          room = inr (masked, omega (arith, up, left, space));
        },
        λ q.
            fill-lookup m.hash m.key_eq m.capacity (state m) (state (filled m i k x)) (key_at m)
              (key_at (filled m i k x)) (value_at m) (value_at (filled m i k x)) v.ops v.entries i k
              x q miss change,
      )

  pub store-Holds :
      (k x : Bytes)
      → length k ≡ m.key_size
      → length x ≡ m.value_size
      → IsMasked m.capacity
      → m.len + m.tombstones + 1 < m.capacity
      → (r : ℕ × Bool)
      → ((r.1 ≡ true) × Hit m.key_eq (table m) k r.0)
        ⊎ ((r.1 ≡ false) × Miss m.hash m.key_eq (table m) k r.0)
      → (m' : HashMap S) × (store m k x r ≡ some m') × Holds k x m'
  unfolding store
  store-Holds k x ek ex masked space (i, true) (inl (e, hit)) =
      (revalued m i x, set_value-revalued m v.sized i hit.0 x ex, revalue-Holds k x i ex hit)
  store-Holds k x ek ex masked space (i, true) (inr (e, miss)) = absurd (cc)
  store-Holds k x ek ex masked space (i, false) (inl (e, hit)) = absurd (cc)
  store-Holds k x ek ex masked space (i, false) (inr (e, miss)) =
      rw (control_at-state m v.sized i miss.inside) (elim (Bool-cases (state m i == 2)) [
        | inl deleted ↦
            let two : state m i ≡ 2 = ground arith in
            let hit_two = is_two (state m i) two in
            let change = fill-Changes i miss.inside k x ek ex in
            let now_one = is_one (state (filled m i k x) i) change.st_self in
            let twos =
              count_change 2 (state m) (state (filled m i k x)) m.capacity i miss.inside
                change.st_ne in
            let some_tomb : 1 ≤ m.tombstones =
              omega (arith, twos, hit_two.1, now_one.1, v.tomb_count) in
            let less : sub_size m.tombstones 1 ≡ m.tombstones - 1 = omega (arith, masked.small) in
            rw
              (
                deleted,
                less,
                occupy-filled (record m { tombstones = m.tombstones - 1 }) v.sized i miss.inside k x
                    ek ex,
              )
              (
                _,
                refl,
                fill-Holds k x i (m.tombstones - 1) ek ex masked space miss
                    (omega (arith, hit_two.1)),
              )
        | inr free ↦
            let zero_two : one_if (state m i == 2) ≡ 0 = ap one_if free in
            rw (free, occupy-filled m v.sized i miss.inside k x ek ex)
              (
                _,
                refl,
                fill-Holds k x i m.tombstones ek ex masked space miss (omega (arith, zero_two)),
              )
      ])

  -- The map after the slot of a key was deleted.
  abbrev deleted_at : ℕ → HashMap S
  deleted_at i = record (marked m i 2) {
    len = sub_size m.len 1;
    tombstones = add_size m.tombstones 1;
  }

  -- What a remove leaves behind: whether the map had the key, and a valid map without it.
  abbrev pub Removed : Bytes → Bool × Option (HashMap S) → Type 0
  Removed k r =
      (m' : HashMap S) × (r.1 ≡ some m')
      × IsValid libc m'
      × (((r.0 ≡ true) × (find m k ≢ none)) ⊎ ((r.0 ≡ false) × (find m k ≡ none)))
      × ((q : Bytes) → find m' q ≡ (if m.key_eq k q then none else find m q))

  delete-Removed :
      (k : Bytes) (i : ℕ)
      → IsMasked m.capacity
      → m.len + m.tombstones < m.capacity
      → Hit m.key_eq (table m) k i
      → Removed k (true, some (deleted_at i))
  delete-Removed k i masked less hit =
      let change = delete-Changes i hit.0 in
      let was = is_one (state m i) hit.1 in
      let now = is_two (state (marked m i 2) i) change.st_self in
      let ones = count_change 1 (state m) (state (marked m i 2)) m.capacity i hit.0 change.st_ne in
      let twos = count_change 2 (state m) (state (marked m i 2)) m.capacity i hit.0 change.st_ne in
      let some_len : 1 ≤ m.len = omega (arith, ones, was.0, now.0, v.len_count) in
      let down : sub_size m.len 1 ≡ m.len - 1 = omega (arith, masked.small) in
      let up : add_size m.tombstones 1 ≡ m.tombstones + 1 = omega (arith, masked.small) in
      (
        deleted_at i,
        refl,
        record {
          lawful = v.lawful;
          ops = v.ops;
          sized = marked-IsSized m v.sized i hit.0 2;
          entries =
              delete-IsTable m.hash m.key_eq m.capacity (state m) (state (marked m i 2)) (key_at m)
                (key_at m) (value_at m) (value_at m) v.ops v.entries i change;
          len_count = omega (arith, down, ones, was.0, now.0, v.len_count);
          tomb_count = omega (arith, up, twos, was.1, now.1, v.tomb_count);
          room = inr (masked, omega (arith, up, down, some_len));
        },
        inl (refl, λ e. absurd (let shown = find-Hit libc m v k i hit in cc)),
        λ q.
            delete-lookup m.hash m.key_eq m.capacity (state m) (state (marked m i 2)) (key_at m)
              (key_at m) (value_at m) (value_at m) v.ops v.entries i k q hit change,
      )

  -- A key equal to one that the map lacks is not there either.
  Lacks-equal :
      (k q : Bytes) → m.key_eq k q ≡ true → Lacks m.key_eq (table m) k → Lacks m.key_eq (table m) q
  Lacks-equal k q eq lacks j lt one = elim (Bool-cases (m.key_eq (key_at m j) q)) [
    | inr differs ↦ differs
    | inl twin ↦
        let there : m.key_eq (key_at m j) k ≡ true =
          v.ops.eq_trans (key_at m j) q k twin (v.ops.eq_sym k q eq) in
        absurd (let clash : true ≡ false = sym there ∙ lacks j lt one in cc)
  ]

  unchanged-Removed : (k : Bytes) → Lacks m.key_eq (table m) k → Removed k (false, some m)
  unchanged-Removed k lacks = (
    m,
    refl,
    v,
    inr (refl, find-Lacks libc m v k lacks),
    λ q. elim (Bool-cases (m.key_eq k q)) [
      | inl eq ↦ rw eq (find-Lacks libc m v q (Lacks-equal k q eq lacks))
      | inr ne ↦ rw ne refl
    ],
  )

  -- d4np_hashmap_remove on a valid map takes the key out and says whether it was there; the map
  -- stays valid and has for every other key what it had.
  pub remove-Removed :
      (key : Bytes)
      → m.key_size ≤ length key
      → (r : Bool × Option (HashMap S)) × (remove (some m) (some key) ≡ some r)
        × Removed (take m.key_size key) r
  unfolding remove
  remove-Removed key h = elim v.room [
    | inl no_slots ↦
        let test : (m.capacity == 0) ≡ true = ground arith in
        rw test (
          (false, some m),
          refl,
          unchanged-Removed (take m.key_size key) (λ j lt. absurd (omega arith)),
        )
    | inr (masked, less) ↦
        let test : (m.capacity == 0) ≡ false = ground arith in
        let (i, found) = locate_valid libc m v (take m.key_size key) masked less in
        rw (test, read_at-front key m.key_size h)
          (elim found [
            | inl (e, hit) ↦
                rw (e, set_control-marked m v.sized i hit.0 2)
                  (
                    (true, some (deleted_at i)),
                    refl,
                    delete-Removed (take m.key_size key) i masked less hit,
                  )
            | inr (e, miss) ↦
                rw e ((false, some m), refl, unchanged-Removed (take m.key_size key) miss.lacks)
          ])
  ]
