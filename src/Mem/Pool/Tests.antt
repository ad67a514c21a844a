-- ===== src/Mem/Pool/Tests.antt =====
-- Runs of pool.c, and its theorems at concrete pools.
use egl_utils_c.Base.{
  ℕ, suc, ◌+◌, ◌≡◌, refl, arith, Option, none, some, [], ◌∷◌, ◌++◌, Bytes, replicate, inl, length,
}
use egl_utils_c.Core.Status.{Status}
use egl_utils_c.Core.Model.{model_libc, model_lawful}
use egl_utils_c.Mem.Pool.{Layout, IsLayout, Pool, pointer_size, load_link, alloc, release, init}
use egl_utils_c.Mem.Pool.Slots.{remove}
use egl_utils_c.Mem.Pool.Valid.{IsValid, Handed, alloc-Handed, release-IsValid}
use egl_utils_c.Mem.Pool.Threaded.{offsets-AreSlots, offsets-Distinct}
use egl_utils_c.Mem.Pool.Lifetime.{Fresh, init-Fresh_pool}
use egl_utils_c.Mem.Pool.Steps.{Step, Reach, reach-IsValid}

-- A tag byte, and the offset in the byte after it.
abbrev tagged : Option ℕ → Bytes
tagged none = replicate 8 0
tagged (some p) = 1 ∷ p ∷ replicate 6 0

abbrev untagged : Bytes → Option ℕ
untagged (suc t ∷ p ∷ bytes) = some p
untagged bytes = none

abbrev layout : Layout
layout = record { encode = tagged; decode = untagged }

tagged_size : (p : Option ℕ) → length (tagged p) ≡ pointer_size
tagged_size none = refl
tagged_size (some p) = refl

untagged-tagged : (p : Option ℕ) → untagged (tagged p) ≡ p
untagged-tagged none = refl
untagged-tagged (some p) = refl

layout-IsLayout : IsLayout layout
layout-IsLayout = record { encode_size = tagged_size; decode-encode = untagged-tagged }

-- Two slots of 16 bytes, both free.
abbrev pool : Pool ℕ
pool = record {
  allocator = none;
  base = some (tagged (some 16) ++ replicate 8 0 ++ tagged none ++ replicate 8 0);
  free_list = some 0;
  stride = 16;
  block_count = 2;
  total_size = 32;
  free_count = 2;
}

pool-IsValid : IsValid layout pool []
unfolding load_link
pool-IsValid = record {
  block = _;
  stored = refl;
  sized = refl;
  total = refl;
  total_lt = omega arith;
  wide = omega arith;
  aligned = refl;
  free = 0 ∷ 16 ∷ [];
  chain = (refl, (some 16, refl, (refl, (none, refl, refl))));
  free_slots = offsets-AreSlots 16 0 2 2 refl;
  live_slots = λ x h. absurd h;
  free_distinct = offsets-Distinct 16 0 2 (omega arith);
  live_distinct = tt;
  apart = λ x inside h. h;
  count = refl;
  all = refl;
}

-- The first slot is handed out.
abbrev one_live : Pool ℕ
one_live = record pool { free_list = some 16; free_count = 1 }

alloc_run : alloc layout (some pool) ≡ some (some 0, some one_live)
unfolding alloc
alloc_run = refl

one_live-Reach : Reach layout pool [] one_live (0 ∷ [])
one_live-Reach = Reach.next Reach.here (Step.handed 0 alloc_run)

reach-IsValid_example : IsValid layout one_live (0 ∷ [])
reach-IsValid_example = reach-IsValid layout layout-IsLayout pool-IsValid one_live-Reach

alloc-Handed_example :
    (r : Option ℕ × Option (Pool ℕ)) × (alloc layout (some pool) ≡ some r) × Handed layout pool [] r
alloc-Handed_example = alloc-Handed layout pool [] pool-IsValid

one_live-IsValid : IsValid layout one_live (0 ∷ [])
one_live-IsValid = reach-IsValid layout layout-IsLayout pool-IsValid one_live-Reach

release-IsValid_example :
    (p : Pool ℕ) × (release layout (some one_live) (some 0) ≡ some (some p))
    × (p.free_count ≡ 1 + 1)
    × IsValid layout p (remove 0 (0 ∷ []))
release-IsValid_example =
    release-IsValid layout one_live (0 ∷ []) one_live-IsValid layout-IsLayout 0 (inl refl)

init-Fresh_pool_example :
    (r : Status × Option (Pool ℕ) × ℕ) × (init layout model_libc (some pool) none 20 3 0 ≡ some r)
    × Fresh layout layout-IsLayout model_libc pool 20 3 r
init-Fresh_pool_example =
    init-Fresh_pool layout layout-IsLayout model_libc pool none 20 3 0 model_lawful (omega arith)
