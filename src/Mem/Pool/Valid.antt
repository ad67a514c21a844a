-- ===== src/Mem/Pool/Valid.antt =====
-- The invariant of a pool, and what d4np_pool_alloc and d4np_pool_free do on a valid pool.
use native.Mathlib.Nat.{mul-mod_left}
use egl_utils_c.Base.{
  Contains, Distinct, Apart, ℕ, zero, suc, ◌+◌, ◌-◌, ◌*◌, ◌%◌, ◌≤◌, ◌<◌, ◌≡◌, refl, sym, ap, subst,
  ◌∙◌, arith, true, false, Option, none, some, List, [], ◌∷◌, Bytes, length, ltb, lt→ltb, ◌==◌, inl,
  inr, ◌⊎◌, size_mod, sub_size, add_size, overwrite, length-overwrite, next_slot-le,
}
use egl_utils_c.Mem.Pool.{
  Layout, IsLayout, Pool, pointer_size, load_link, take_node, alloc, release,
}
use egl_utils_c.Mem.Pool.Slots.{
  AreSlots, remove, remove-Contains, remove_gone, remove-Distinct, length-remove,
}
use egl_utils_c.Mem.Pool.Links.{
  Chain, Chain-overwrite, store_link-overwrite, load_link-overwrite_self,
}

-- `live` are the slots that are handed out. The others are on the free list, each once.
pub record IsValid {S : Type 0} (layout : Layout) (pool : Pool S) (live : List ℕ) : Type 0 where
  pub block : Bytes
  pub stored : pool.base ≡ some block
  pub sized : length block ≡ pool.block_count * pool.stride
  pub total : pool.total_size ≡ pool.block_count * pool.stride
  pub total_lt : pool.block_count * pool.stride < size_mod
  pub wide : 16 ≤ pool.stride
  pub aligned : pool.stride % 16 ≡ 0
  pub free : List ℕ
  pub chain : Chain layout block pool.free_list free
  pub free_slots : AreSlots pool.stride pool.block_count free
  pub live_slots : AreSlots pool.stride pool.block_count live
  pub free_distinct : Distinct free
  pub live_distinct : Distinct live
  pub apart : Apart free live
  pub count : length free ≡ pool.free_count
  pub all : length free + length live ≡ pool.block_count

slot-aligned : (stride i : ℕ) → stride % 16 ≡ 0 → (i * stride) % 16 ≡ 0
slot-aligned stride zero e = omega arith
slot-aligned stride (suc i) e =
    let next : suc i * stride ≡ i * stride + stride = omega arith in
    omega (arith, slot-aligned stride i e, next)

module _ {S : Type 0} (layout : Layout) where
  -- What d4np_pool_alloc gives: a slot of the block that is not handed out, at a multiple of 16; or
  -- NULL, if all slots are handed out.
  abbrev pub Handed : Pool S → List ℕ → Option ℕ × Option (Pool S) → Type 0
  Handed pool live r =
      ((length live ≡ pool.block_count) × (r.0 ≡ none) × (r.1 ≡ some pool))
      ⊎ ((x : ℕ) × (pool' : Pool S) × (r.0 ≡ some x)
          × (r.1 ≡ some pool')
          × ¬ Contains live x
          × (x + pool.stride ≤ pool.total_size)
          × (x % 16 ≡ 0)
          × (pool'.free_count + 1 ≡ pool.free_count)
          × IsValid layout pool' (x ∷ live))

  module _ (pool : Pool S) (live : List ℕ) (v : IsValid layout pool live) where
    few : pool.block_count < size_mod
    few =
        let thin : pool.block_count * 16 ≤ pool.block_count * pool.stride = grind (arith, v.wide) in
        omega (arith, thin, v.total_lt)

    -- The pool after its first free slot `x` was taken off the chain.
    taken-IsValid :
        (x : ℕ) (next : Option ℕ) (rest : List ℕ)
        → v.free ≡ x ∷ rest
        → Chain layout v.block next rest
        → IsValid layout
            (record pool { free_list = next; free_count = sub_size pool.free_count 1 })
            (x ∷ live)
    taken-IsValid x next rest e c =
        let slots : AreSlots pool.stride pool.block_count (x ∷ rest) =
          subst (AreSlots pool.stride pool.block_count) e v.free_slots in
        let distinct : Distinct (x ∷ rest) = subst Distinct e v.free_distinct in
        let apart : Apart (x ∷ rest) live = subst (λ l. Apart l live) e v.apart in
        let len : length (x ∷ rest) ≡ pool.free_count = ap length (sym e) ∙ v.count in
        let down : sub_size pool.free_count 1 ≡ pool.free_count - 1 =
          omega (arith, few, len, ap length e, v.all) in
        record {
          block = v.block;
          stored = v.stored;
          sized = v.sized;
          total = v.total;
          total_lt = v.total_lt;
          wide = v.wide;
          aligned = v.aligned;
          free = rest;
          chain = c;
          free_slots = λ y h. slots y (inr h);
          live_slots =
              λ y h. elim h [ inl same ↦ slots y (inl same) | inr old ↦ v.live_slots y old ];
          free_distinct = distinct.1;
          live_distinct = (apart x (inl refl), v.live_distinct);
          apart = λ y in_rest h. elim h [
            | inl same ↦ distinct.0 (subst (Contains rest) same in_rest)
            | inr old ↦ apart y (inr in_rest) old
          ];
          count = omega (arith, down, len);
          all = omega (arith, ap length e, v.all);
        }

    taken-Handed :
        (xs : List ℕ)
        → v.free ≡ xs
        → (r : Option ℕ × Option (Pool S)) × (take_node layout pool pool.free_list ≡ some r)
          × Handed pool live r
    unfolding take_node
    taken-Handed [] e =
        let empty : pool.free_list ≡ none = subst (Chain layout v.block pool.free_list) e v.chain in
        (
          (none, some pool),
          ap (take_node layout pool) empty,
          inl (omega (arith, ap length e, v.all), refl, refl),
        )
    taken-Handed (x ∷ rest) e =
        let (at_x, (next, loaded, c)) = subst (Chain layout v.block pool.free_list) e v.chain in
        let step : take_node layout pool (some x)
            ≡ some (
              some x,
              some (record pool { free_list = next; free_count = sub_size pool.free_count 1 }),
            ) =
          rw (v.stored, loaded) refl in
        let valid = taken-IsValid x next rest e c in
        let (i, i_lt, at_i) = v.free_slots x (subst (λ l. Contains l x) (sym e) (inl refl)) in
        (
          _,
          ap (take_node layout pool) at_x ∙ step,
          inr (
            x,
            _,
            refl,
            refl,
            valid.live_distinct.0,
            omega (arith, at_i, next_slot-le pool.stride i pool.block_count i_lt, v.total),
            ap (λ k. k % 16) at_i ∙ slot-aligned pool.stride i v.aligned,
            omega (arith, ap length e, v.count, few, v.all),
            valid,
          ),
        )

    -- d4np_pool_alloc on a valid pool reads inside the block. It returns NULL, with nothing changed,
    -- exactly when all slots are handed out, and otherwise a slot of the block at a multiple of 16
    -- that is not handed out; the pool stays valid.
    pub alloc-Handed :
        (r : Option ℕ × Option (Pool S)) × (alloc layout (some pool) ≡ some r) × Handed pool live r
    unfolding alloc
    alloc-Handed = taken-Handed v.free refl

    -- What stays where the bytes of a slot that is handed out change.
    pub written-IsValid :
        (x : ℕ) (src : Bytes)
        → Contains live x
        → length src ≤ pool.stride
        → IsValid layout (record pool { base = some (overwrite x src v.block) }) live
    written-IsValid x src h fits =
        let (i, i_lt, at_i) = v.live_slots x h in
        record {
          block = overwrite x src v.block;
          stored = refl;
          sized = length-overwrite x src v.block ∙ v.sized;
          total = v.total;
          total_lt = v.total_lt;
          wide = v.wide;
          aligned = v.aligned;
          free = v.free;
          chain =
              subst (λ k. Chain layout (overwrite k src v.block) pool.free_list v.free) (sym at_i)
                (Chain-overwrite layout pool.stride (omega (arith, v.wide)) pool.block_count v.block
                  i src pool.free_list v.free fits v.free_slots
                  (λ inside. v.apart x (subst (Contains v.free) (sym at_i) inside) h) v.chain);
          free_slots = v.free_slots;
          live_slots = v.live_slots;
          free_distinct = v.free_distinct;
          live_distinct = v.live_distinct;
          apart = v.apart;
          count = v.count;
          all = v.all;
        }

    -- The pool after the slot `x` was put before the chain.
    abbrev released : ℕ → Pool S
    released x = record pool {
      base = some (overwrite x (layout.encode pool.free_list) v.block);
      free_list = some x;
      free_count = add_size pool.free_count 1;
    }

    released-IsValid :
        IsLayout layout → (x : ℕ) → Contains live x → IsValid layout (released x) (remove x live)
    unfolding written-IsValid
    released-IsValid lawful x h =
        let (i, i_lt, at_i) = v.live_slots x h in
        let fits : length (layout.encode pool.free_list) ≤ pool.stride =
          omega (arith, lawful.encode_size pool.free_list, v.wide) in
        let w = written-IsValid x (layout.encode pool.free_list) h fits in
        let room : i * pool.stride + pointer_size ≤ length v.block =
          omega (arith, next_slot-le pool.stride i pool.block_count i_lt, v.sized, v.wide) in
        let up : add_size pool.free_count 1 ≡ pool.free_count + 1 =
          omega (arith, few, v.count, v.all, length-remove x live h) in
        record {
          block = overwrite x (layout.encode pool.free_list) v.block;
          stored = refl;
          sized = w.sized;
          total = v.total;
          total_lt = v.total_lt;
          wide = v.wide;
          aligned = v.aligned;
          free = x ∷ v.free;
          chain = (
            refl,
            (
              pool.free_list,
              subst
                  (λ k.
                    load_link layout (some (overwrite k (layout.encode pool.free_list) v.block)) k
                    ≡ some pool.free_list)
                  (sym at_i)
                  (load_link-overwrite_self layout lawful pool.stride v.block i pool.free_list
                    room),
              w.chain,
            ),
          );
          free_slots = λ y inside. elim inside [
            | inl same ↦ (i, i_lt, same ∙ at_i)
            | inr old ↦ v.free_slots y old
          ];
          live_slots = λ y inside. v.live_slots y (remove-Contains x y live inside);
          free_distinct = ((λ inside. v.apart x inside h), v.free_distinct);
          live_distinct = remove-Distinct x live v.live_distinct;
          apart = λ y inside. elim inside [
            | inl same ↦ λ in_live.
                remove_gone x live v.live_distinct (subst (Contains (remove x live)) same in_live)
            | inr old ↦ λ in_live. v.apart y old (remove-Contains x y live in_live)
          ];
          count = omega (arith, up, v.count);
          all = omega (arith, v.all, length-remove x live h);
        }

    -- d4np_pool_free of a slot that is handed out passes the assertions, writes inside the block and
    -- puts the slot back; the pool stays valid.
    pub release-IsValid :
        IsLayout layout
        → (x : ℕ) → Contains live x
        → (pool' : Pool S) × (release layout (some pool) (some x) ≡ some (some pool'))
          × (pool'.free_count ≡ pool.free_count + 1)
          × IsValid layout pool' (remove x live)
    unfolding release
    release-IsValid lawful x h =
        let (i, i_lt, at_i) = v.live_slots x h in
        let inside : x + pool.stride ≤ pool.total_size =
          omega (arith, at_i, next_slot-le pool.stride i pool.block_count i_lt, v.total) in
        let below : ltb x pool.total_size ≡ true = lt→ltb _ _ (omega (arith, inside, v.wide)) in
        let some_stride : (pool.stride == 0) ≡ false = ground (arith, v.wide) in
        let multiple : x % pool.stride ≡ 0 =
          ap (λ k. k % pool.stride) at_i ∙ mul-mod_left i pool.stride in
        let boundary : (x % pool.stride == 0) ≡ true = ap (λ k. k == 0) multiple in
        let stored =
          store_link-overwrite layout lawful v.block x pool.free_list
            (omega (arith, inside, v.total, v.sized, v.wide)) in
        let up : add_size pool.free_count 1 ≡ pool.free_count + 1 =
          omega (arith, few, v.count, v.all, length-remove x live h) in
        (
          released x,
          rw (below, some_stride, boundary, v.stored, stored) refl,
          up,
          released-IsValid lawful x h,
        )
