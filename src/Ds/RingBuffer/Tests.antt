-- ===== src/Ds/RingBuffer/Tests.antt =====
-- Runs of ring_buffer.c, and its theorems at concrete ring buffers.
use egl_utils_c.Base.{
  ℕ, ◌+◌, ◌-◌, ◌^◌, ◌≡◌, refl, arith, Option, none, some, List, [], ◌∷◌, IsLeastPow2,
}
use egl_utils_c.Core.Status.{Status}
use egl_utils_c.Core.Model.{model_libc, model_lawful}
use egl_utils_c.Ds.RingBuffer.{RingBuffer, next_pow2_at_least, init, push, pop}
use egl_utils_c.Ds.RingBuffer.Queue.{Op, put, get, got, stored, full, queue_run}
use egl_utils_c.Ds.RingBuffer.Contents.{IsValid, queue_of}
use egl_utils_c.Ds.RingBuffer.Refine.{ring_run, run_refines}
use egl_utils_c.Ds.RingBuffer.Lifetime.{SetUp, init-SetUp, next_pow2_at_least-IsLeastPow2}

-- Three of four slots are held, the first at the last index, and the tail has wrapped at 2^64.
abbrev wrapped : RingBuffer ℕ
wrapped = record {
  allocator = none;
  buffer = some (20 ∷ 30 ∷ 99 ∷ 10 ∷ []);
  elem_size = 1;
  capacity = 4;
  mask = 3;
  head = 2 ^ 64 - 1;
  tail = 2;
}

wrapped-IsValid : IsValid wrapped
wrapped-IsValid = record {
  elem_pos = omega arith;
  bits = 2;
  bits_le = omega arith;
  pow = refl;
  masked = refl;
  head_lt = omega arith;
  tail_lt = omega arith;
  held_le = omega arith;
  fits = omega arith;
  block = 20 ∷ 30 ∷ 99 ∷ 10 ∷ [];
  stored = refl;
  sized = refl;
}

queue_of-wrapped : queue_of wrapped ≡ (10 ∷ []) ∷ (20 ∷ []) ∷ (30 ∷ []) ∷ []
queue_of-wrapped = refl

abbrev script : List Op
script = put (40 ∷ []) ∷ put (50 ∷ []) ∷ get ∷ get ∷ []

run-wrapped :
    ring_run (some wrapped) script ≡ some (stored ∷ full ∷ got (10 ∷ []) ∷ got (20 ∷ []) ∷ [])
unfolding ring_run push pop
run-wrapped = refl

pow2_of_five : next_pow2_at_least 5 ≡ some 8
unfolding next_pow2_at_least
pow2_of_five = refl

-- Above 2^63 the capacity that is set up is below the one asked for.
pow2_saturates : next_pow2_at_least (2 ^ 63 + 1) ≡ some (2 ^ 63)
unfolding next_pow2_at_least
pow2_saturates = refl

next_pow2_at_least-IsLeastPow2_example :
    (c : ℕ) × (next_pow2_at_least 5 ≡ some c) × IsLeastPow2 0 5 c
next_pow2_at_least-IsLeastPow2_example = next_pow2_at_least-IsLeastPow2 5

run_refines_example :
    ring_run (some wrapped) script
    ≡ some (queue_run 4 ((10 ∷ []) ∷ (20 ∷ []) ∷ (30 ∷ []) ∷ []) script)
run_refines_example = run_refines script wrapped wrapped-IsValid (refl, (refl, tt))

init-SetUp_example :
    (r : Status × Option (RingBuffer ℕ) × ℕ) × (init model_libc (some wrapped) none 2 3 0 ≡ some r)
    × SetUp model_libc wrapped 2 3 r
init-SetUp_example =
    init-SetUp model_libc wrapped none 2 3 0 model_lawful (omega arith) (omega arith) (omega arith)
