-- ===== src/Concurrency/ThreadPool/Rollback.antt =====
-- Init on every outcome of the system's calls.
use egl_utils_c.Base.{ℕ, suc, ◌+◌, ◌*◌, ◌≤◌, ◌≡◌, ◌≢◌, ◌⊎◌, Option, none, some, Bytes, mul_size}
use egl_utils_c.Core.Status.{Status, ok}
use egl_utils_c.Core.Allocator.{Libc, Allocator, or_default, alloc, free}
use egl_utils_c.Concurrency.ThreadPool.{TaskNode}
use egl_utils_c.Concurrency.ThreadPool.System.{System, started_pool}
use egl_utils_c.Concurrency.ThreadPool.Schedule.{Schedule, IsFair}
use egl_utils_c.Concurrency.ThreadPool.Setup.{ThreadPool, Platform, World, handle_size}

module _ {S : Type 0} (libc : Libc S) (platform : Platform) (schedule : Schedule) where
  abbrev pub request : Option (Allocator S) → ℕ → World S → Option Bytes × S
  request a count w =
      alloc libc (some (or_default libc a)) (mul_size count handle_size) handle_size w.heap

  -- The heap is as it was, or the handles' block was refused, or it was given back.
  abbrev pub HeapBack : Option (Allocator S) → ℕ → World S → World S → Type 0
  HeapBack a count w w' =
      (w'.heap ≡ w.heap)
      ⊎ (request a count w ≡ (none, w'.heap))
      ⊎ ((b : Bytes) × (h : S) × (request a count w ≡ (some b, h))
          × (w'.heap
              ≡ free libc (some (or_default libc a)) (some b) (mul_size count handle_size) h))

  abbrev pub Undone :
      Option (Allocator S) → ℕ → World S → Status × Option (ThreadPool S) × World S → Type 0
  Undone a count w (status, pool, w') =
      (status ≢ ok)
      × (w'.locks ≡ w.locks)
      × (w'.semaphores ≡ w.semaphores)
      × (w'.threads ≡ w.threads)
      × HeapBack a count w w'

  abbrev pub Running :
      (ℕ → TaskNode) → ℕ → World S → Status × Option (ThreadPool S) × World S → Type 0
  Running nodes count w (status, pool, w') =
      (status ≡ ok)
      × ((p : ThreadPool S) × (b : Bytes) × (pool ≡ some p)
          × (p.threads ≡ some b)
          × (p.thread_count ≡ count)
          × (p.shared ≡ started_pool nodes count))
      × (w'.locks ≡ suc w.locks)
      × (w'.semaphores ≡ suc w.semaphores)
      × (w'.threads ≡ w.threads + count)

  -- The call returns, with the one or the other.
  abbrev Outcome :
      (ℕ → TaskNode)
      → Option (Allocator S)
      → ℕ
      → World S
      → Option (Status × ThreadPool S × World S)
      → Type 0
  Outcome nodes a count w o =
      (st : Status) × (p : ThreadPool S) × (w' : World S) × (o ≡ some (st, p, w'))
      × (Running nodes count w (st, some p, w') ⊎ Undone a count w (st, some p, w'))

  -- A fair schedule, with a round for each move that the started workers may make.
  abbrev pub EnoughRounds : ℕ → Type 0
  EnoughRounds count = IsFair schedule.order count × (4 * count ≤ schedule.rounds)

  abbrev both_made : World S → World S
  both_made w = record w { locks = suc w.locks; semaphores = suc w.semaphores }

  -- What init gives: a pool of `count` workers at their first wait, with an empty queue, and one mutex
  -- and one semaphore made; or an error, with no mutex, semaphore or thread left and the block of
  -- handles freed.
  abbrev pub AllOrNothing :
      ThreadPool S
      → Option (Allocator S)
      → ℕ
      → World S
      → Status × Option (ThreadPool S) × World S
      → Type 0
  AllOrNothing pool a count w r = Running pool.shared.queue.nodes count w r ⊎ Undone a count w r
