-- ===== src/Concurrency/ThreadPool/Setup.antt =====
-- d4np_thread_pool_init, destroy and thread_count of thread_pool.c, with pthreads. What the system
-- answers, and the order in which it runs the workers during the joins, are parameters; its objects
-- are counted. sizeof(pthread_t) is 8, as on x86_64.
use egl_utils_c.Base.{
  ℕ, zero, suc, ◌-◌, ◌/◌, Bool, true, false, Option, none, some, List, [], ◌∷◌, Bytes, ltb, ◌==◌,
  if◌then◌else◌, ◌>>=◌, size_max, mul_size,
}
use egl_utils_c.Core.Status.{Status, ok, invalid_argument, out_of_memory, overflow, internal}
use egl_utils_c.Core.Allocator.{Libc, Allocator, or_default, alloc, free}
use egl_utils_c.Concurrency.ThreadPool.{TaskNode, Worker, exited}
use egl_utils_c.Concurrency.ThreadPool.System.{System, started_pool}
use egl_utils_c.Concurrency.ThreadPool.Schedule.{Schedule, stop_workers}

-- d4np_thread_pool_t: what the threads share, with the permits of `items`, is the state of
-- System.antt; the storage of the lock is left out.
pub record ThreadPool (S : Type 0) : Type 0 where
  pub allocator : Option (Allocator S)
  pub threads : Option Bytes
  pub thread_count : ℕ
  pub shared : System

-- Whether d4np_mutex_init, d4np_semaphore_init and the i-th pthread_create succeed.
pub record Platform : Type 0 where
  pub mutex_made : Bool
  pub semaphore_made : Bool
  pub spawned : ℕ → Bool

-- The heap, and the live mutexes, semaphores and threads that are not joined.
pub record World (S : Type 0) : Type 0 where
  pub heap : S
  pub locks : ℕ
  pub semaphores : ℕ
  pub threads : ℕ

abbrev pub handle_size : ℕ
handle_size = 8

module _ {S : Type 0} where
  abbrev pub drop_lock : World S → World S
  drop_lock w = record w { locks = w.locks - 1 }

  abbrev pub drop_semaphore : World S → World S
  drop_semaphore w = record w { semaphores = w.semaphores - 1 }

  -- The loop of pool_join, over the workers whose handles are left. pthread_join comes back only from
  -- a thread that has left its loop: otherwise the call does not return, and there is no result.
  abbrev pub join_all : List Worker → World S → Option (World S)
  join_all [] w = some w
  join_all (exited ∷ ws) w = join_all ws (record w { threads = w.threads - 1 })
  join_all (v ∷ ws) w = none

  -- The loop of pool_spawn from i on: whether all `n` threads that are left were made, and how many
  -- there are at the end.
  unfoldable pub spawn_all : (ℕ → Bool) → ℕ → ℕ → World S → Bool × ℕ × World S
  spawn_all spawned zero i w = (true, i, w)
  spawn_all spawned (suc n) i w =
      let rest = spawn_all spawned n (suc i) (record w { threads = suc w.threads }) in
      if spawned i then rest else (false, i, w)

-- The loop of destroy over the nodes that are left: those that it frees, within `fuel` rounds.
unfoldable pub drain_nodes : ℕ → (ℕ → TaskNode) → Option ℕ → Option (List ℕ)
drain_nodes fuel nodes none = some []
drain_nodes zero nodes (some a) = none
drain_nodes (suc fuel) nodes (some a) = do
  freed ← drain_nodes fuel nodes (nodes a).next
  some (a ∷ freed)

module _ {S : Type 0} (libc : Libc S) (platform : Platform) (schedule : Schedule) where
  abbrev pub free_threads : ThreadPool S → ℕ → World S → World S
  free_threads pool count w = record w {
    heap = free libc pool.allocator pool.threads (mul_size count handle_size) w.heap;
  }

  -- What follows the spawning loop: nothing, or the rollback. The `i` workers that were started are at
  -- their first wait.
  unfoldable pub spawn_or_roll_back :
      ThreadPool S → ℕ → Bool × ℕ × World S → Option (Status × ThreadPool S × World S)
  unfolding stop_workers
  spawn_or_roll_back pool count (true, i, w) =
      some (ok, record pool { shared = started_pool pool.shared.queue.nodes i }, w)
  spawn_or_roll_back pool count (false, i, w) = do
    let left = stop_workers schedule i (started_pool pool.shared.queue.nodes i)
    joined ← join_all left.workers w
    some (
      internal,
      record pool { thread_count = i; threads = none; shared = left },
      drop_lock (drop_semaphore (free_threads pool count joined)),
    )

  unfoldable pub init_threads :
      ThreadPool S → ℕ → Option Bytes × S → World S → Option (Status × ThreadPool S × World S)
  unfolding spawn_all spawn_or_roll_back
  init_threads pool count (none, h) w =
      some (out_of_memory, pool, drop_lock (drop_semaphore (record w { heap = h })))
  init_threads pool count (some block, h) w =
      spawn_or_roll_back (record pool { threads = some block }) count
        (spawn_all platform.spawned count 0 (record w { heap = h }))

  unfoldable pub init_locked : ThreadPool S → ℕ → World S → Option (Status × ThreadPool S × World S)
  unfolding init_threads
  init_locked pool count w =
      let locked = record w { locks = suc w.locks } in
      let both = record locked { semaphores = suc w.semaphores } in
      if platform.mutex_made
      then (if platform.semaphore_made
          then init_threads pool count
              (alloc libc pool.allocator (mul_size count handle_size) handle_size w.heap) both
          else some (internal, pool, drop_lock locked))
      else some (internal, pool, w)

  -- The object as it stands before the lock is made.
  abbrev pub prepared : ThreadPool S → Option (Allocator S) → ℕ → ThreadPool S
  prepared pool a count = record {
    allocator = some (or_default libc a);
    threads = none;
    thread_count = count;
    shared = started_pool pool.shared.queue.nodes 0;
  }

  unfoldable pub init :
      Option (ThreadPool S)
      → Option (Allocator S)
      → ℕ
      → World S
      → Option (Status × Option (ThreadPool S) × World S)
  unfolding init_locked
  init none a count w = some (invalid_argument, none, w)
  init (some pool) a count w =
      if count == 0
      then some (invalid_argument, some pool, w)
      else if ltb (size_max / handle_size) count
      then some (overflow, some pool, w)
      else (do
        (status, made, w') ← init_locked (prepared pool a count) count w
        some (status, some made, w'))

  unfoldable pub destroy_threads :
      ℕ → Option Bytes → ThreadPool S → World S → Option (List ℕ × ThreadPool S × World S)
  unfolding drain_nodes stop_workers
  destroy_threads fuel none pool w = some ([], pool, w)
  destroy_threads fuel (some block) pool w = do
    let left = stop_workers schedule pool.thread_count pool.shared
    joined ← join_all left.workers w
    freed ← drain_nodes fuel left.queue.nodes left.queue.q_head
    some (
      freed,
      record pool {
        threads = none;
        shared = record left { queue = record left.queue { q_head = none; q_tail = none } };
      },
      drop_lock (drop_semaphore (free_threads pool pool.thread_count joined)),
    )

  unfoldable pub destroy :
      ℕ → Option (ThreadPool S) → World S → Option (List ℕ × Option (ThreadPool S) × World S)
  unfolding destroy_threads
  destroy fuel none w = some ([], none, w)
  destroy fuel (some pool) w = do
    (freed, pool', w') ← destroy_threads fuel pool.threads pool w
    some (freed, some pool', w')

module _ {S : Type 0} where
  unfoldable pub thread_count_of : Option (ThreadPool S) → ℕ
  thread_count_of none = 0
  thread_count_of (some pool) = pool.thread_count
