-- ===== src/Mem/Pool/Lifetime.antt =====
-- d4np_pool_init and d4np_pool_destroy.
use egl_utils_c.Base.{
  ℕ, ◌-◌, ◌*◌, ◌/◌, ◌%◌, ◌≤◌, ◌<◌, ◌≡◌, ◌≢◌, refl, sym, ap₂, ◌∙◌, arith, true, false, ◌||◌, Option,
  none, some, [], Bytes, length, ltb, ◌==◌, if◌then◌else◌, Bool-cases, lt→ltb, inl, inr, ◌⊎◌,
  size_mod, size_max, mul_size, mul_size_exact, mul-lt_of_le_div, round_16, round_16-zero,
}
use egl_utils_c.Core.Status.{Status, ok}
use egl_utils_c.Core.Allocator.{Allocator, Libc, IsAllocator, or_default, max_align}
use egl_utils_c.Core.Allocator.{alloc as allocate}
use egl_utils_c.Mem.Pool.{Layout, IsLayout, Pool, pointer_size, round_up, set_up, init_slots, init}
use egl_utils_c.Mem.Pool.Valid.{IsValid}
use egl_utils_c.Mem.Pool.Threaded.{
  offsets, length-offsets, offsets-AreSlots, offsets-Distinct, thread-Chain,
}

-- The bytes that a slot must hold: a block, and a link.
abbrev slot_of : ℕ → ℕ
slot_of block_size = if ltb block_size pointer_size then pointer_size else block_size

module _ {S : Type 0} (layout : Layout) (lawful : IsLayout layout) (libc : Libc S) where
  -- What d4np_pool_init leaves behind: a valid pool with all of its slots free, each at least as
  -- large as asked for; or the object as it was.
  abbrev pub Fresh : Pool S → ℕ → ℕ → Status × Option (Pool S) × S → Type 0
  Fresh pool block_size block_count r =
      ((r.0 ≢ ok) × (r.1 ≡ some pool))
      ⊎ ((pool' : Pool S) × (r.0 ≡ ok)
          × (r.1 ≡ some pool')
          × IsValid layout pool' []
          × (pool'.block_count ≡ block_count)
          × (pool'.free_count ≡ block_count)
          × (block_size ≤ pool'.stride))

  module _ (pool : Pool S) (allocator : Allocator S) (block_size block_count stride : ℕ)
      (granted : IsAllocator libc.address allocator) (wide : 16 ≤ stride)
      (aligned : stride % 16 ≡ 0) (fits : stride * block_count < size_mod)
      (holds : block_size ≤ stride) where
    turned : block_count * stride ≡ stride * block_count
    turned = omega arith

    set_up-Fresh :
        (o : Option Bytes) (s : S)
        → ((b : Bytes) → o ≡ some b → length b ≡ stride * block_count)
        → (r : Status × Option (Pool S) × S) × (set_up layout libc pool allocator stride block_count
              (o, s)
            ≡ some r)
          × Fresh pool block_size block_count r
    unfolding set_up
    set_up-Fresh none s sizes = (_, refl, inl ((cc), refl))
    set_up-Fresh (some b) s sizes =
        let ((head, base), done, len, chain) =
          thread-Chain layout lawful stride block_count (omega arith) (omega (arith, turned))
            block_count 0 none b (sizes b refl ∙ sym turned) (omega arith) refl in
        let exact : mul_size stride block_count ≡ block_count * stride =
          mul_size_exact stride block_count fits ∙ sym turned in
        let made : Pool S = record {
          allocator = some allocator;
          base = some base;
          free_list = head;
          stride = stride;
          block_count = block_count;
          total_size = mul_size stride block_count;
          free_count = block_count;
        } in
        (
          (ok, some made, s),
          rw done refl,
          inr (
            made,
            refl,
            refl,
            record {
              block = base;
              stored = refl;
              sized = len;
              total = exact;
              total_lt = omega (arith, turned);
              wide = wide;
              aligned = aligned;
              free = offsets stride 0 block_count;
              chain = chain;
              free_slots = offsets-AreSlots stride 0 block_count block_count (omega arith);
              live_slots = λ x h. absurd h;
              free_distinct = offsets-Distinct stride 0 block_count (omega arith);
              live_distinct = tt;
              apart = λ x inside h. h;
              count = length-offsets stride 0 block_count;
              all = omega (arith, length-offsets stride 0 block_count);
            },
            refl,
            refl,
            holds,
          ),
        )

    allocated_size :
        (b : Bytes) (s : S)
        → (allocate libc (some allocator) (stride * block_count) max_align s).0 ≡ some b
        → length b ≡ stride * block_count
    unfolding allocate
    allocated_size b s e =
        granted.alloc_size (stride * block_count) max_align s _ b
          (ap₂ (λ (o : Option Bytes) (t : S). (o, t)) e refl)

  -- What rounding up gives: a multiple of 16 that holds a slot, or 0 if the sum wraps.
  abbrev Rounded : ℕ → ℕ → Type 0
  Rounded slot stride = ((slot ≤ stride) × (16 ≤ stride) × (stride % 16 ≡ 0)) ⊎ (stride ≡ 0)

  init_slots-Fresh :
      (pool : Pool S) (allocator : Allocator S) (block_size slot stride block_count : ℕ) (s : S)
      → IsAllocator libc.address allocator
      → 0 < slot
      → block_size ≤ slot
      → Rounded slot stride
      → (r : Status × Option (Pool S) × S) × (init_slots layout libc pool allocator slot stride
            block_count s
          ≡ some r)
        × Fresh pool block_size block_count r
  unfolding init_slots
  init_slots-Fresh pool allocator block_size slot stride block_count s granted pos le
        (inr wrapped) =
      let small : ltb stride slot ≡ true = lt→ltb _ _ (omega arith) in
      rw small (_, refl, inl ((cc), refl))
  init_slots-Fresh pool allocator block_size slot stride block_count s granted pos le
        (inl (holds, wide, aligned)) =
      let large : ltb stride slot ≡ false = ground arith in
      let nonzero : (stride == 0) ≡ false = ground arith in
      rw (large, nonzero)
        (elim (Bool-cases (ltb (size_max / stride) block_count)) [
          | inl big ↦ rw big (_, refl, inl ((cc), refl))
          | inr fine ↦
              let fits : stride * block_count < size_mod =
                omega (arith, mul-lt_of_le_div block_count stride (omega arith) (ground arith)) in
              rw (fine, mul_size_exact stride block_count fits)
                (set_up-Fresh pool allocator block_size block_count stride granted wide aligned fits
                  (omega arith) _ _
                  (λ b e.
                    allocated_size pool allocator block_size block_count stride granted wide aligned
                      fits (omega arith) b s e))
        ])

  rounded : (slot : ℕ) → 0 < slot → slot < size_mod → Rounded slot (round_up slot max_align)
  unfolding round_up
  rounded slot pos lt = elim order [
    | inl le ↦ inl (
      omega (arith, round_16 slot le),
      omega (arith, round_16 slot le),
      omega (arith, round_16 slot le),
    )
    | inr gt ↦ inr (round_16-zero slot gt (omega arith))
  ]
    where
      order : (slot ≤ size_max - 15) ⊎ (size_max - 15 < slot)
      order = omega arith

  -- d4np_pool_init with a lawful allocator returns, whatever the sizes: with a valid pool of
  -- `block_count` free slots of at least `block_size` bytes, or with an error and the object as it
  -- was.
  pub init-Fresh_pool :
      (pool : Pool S) (allocator : Option (Allocator S)) (block_size block_count : ℕ) (s : S)
      → IsAllocator libc.address (or_default libc allocator)
      → block_size < size_mod
      → (r : Status × Option (Pool S) × S) × (init layout libc
            (some pool)
            allocator
            block_size
            block_count
            s
          ≡ some r)
        × Fresh pool block_size block_count r
  unfolding init
  init-Fresh_pool pool allocator block_size block_count s granted lt =
      elim (Bool-cases (block_size == 0 || block_count == 0)) [
        | inl bad ↦ rw bad (_, refl, inl ((cc), refl))
        | inr good ↦
            let pos : 0 < slot_of block_size = ground arith in
            rw good (
              init_slots-Fresh pool (or_default libc allocator) block_size (slot_of block_size) _
                block_count s granted pos (ground arith)
                (rounded (slot_of block_size) pos (ground arith)))
      ]
