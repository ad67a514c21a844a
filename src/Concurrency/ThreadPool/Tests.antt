-- ===== src/Concurrency/ThreadPool/Tests.antt =====
-- Runs of thread_pool.c, and its theorems at a concrete pool.
use egl_utils_c.Base.{
  ℕ, zero, suc, ◌≤◌, ◌<◌, ◌≡◌, refl, arith, ◌⊎◌, inl, inr, true, false, none, some, List, [], ◌∷◌,
  ◌++◌, length, ltb, replicate, Contains,
}
use egl_utils_c.Core.Status.{Status}
use egl_utils_c.Concurrency.ThreadPool.Schedule.{Schedule, IsFair}
use egl_utils_c.Core.Model.{model_libc}
use egl_utils_c.Concurrency.ThreadPool.{
  TaskNode, TaskQueue, store_node, take_node, submit, waiting, woken,
}
use egl_utils_c.Concurrency.ThreadPool.Chain.{Chain, tasks}
use egl_utils_c.Concurrency.ThreadPool.System.{
  System, Move, wake, take_task, finish, worker, submitted, posted, shut, stopped, started_pool,
  Reach, Unused, here, next, taken,
}
use egl_utils_c.Concurrency.ThreadPool.Invariant.{total, is_exited}
use egl_utils_c.Concurrency.ThreadPool.Drain.{Reach-in_order, exited-drained}
use egl_utils_c.Concurrency.ThreadPool.Progress.{still, move, measure, Moves-Bounded}
use egl_utils_c.Concurrency.ThreadPool.Setup.{ThreadPool, Platform, World, destroy}
use egl_utils_c.Concurrency.ThreadPool.Teardown.{Gone, destroy-Gone}

abbrev empty_nodes : ℕ → TaskNode
empty_nodes a = record { next = none; fn = 0; arg = 0 }

-- One worker; the task (7, 9) is submitted in the node 5, the pool shuts down, and the worker runs
-- the task and leaves.
abbrev start : System
start = started_pool empty_nodes 1

abbrev submitted_queue : TaskQueue
submitted_queue = record {
  nodes = store_node empty_nodes 5 (record { next = none; fn = 7; arg = 9 });
  q_head = some 5;
  q_tail = some 5;
  shutting_down = false;
}

abbrev accepted_state : System
accepted_state = record start { queue = submitted_queue; posts = 1; accepted = (7, 9) ∷ [] }

abbrev posted_state : System
posted_state = record accepted_state { posts = 0; items = 1 }

abbrev shut_state : System
shut_state = record posted_state { queue = record submitted_queue { shutting_down = true } }

abbrev stopped_state : System
stopped_state = record shut_state { stops = 1; items = 2 }

abbrev woken_state : System
woken_state = record stopped_state { items = 1; workers = woken ∷ [] }

abbrev running_state : System
running_state = taken woken_state 0

abbrev back_state : System
back_state = record running_state { workers = waiting ∷ [] }

abbrev woken_again : System
woken_again = record back_state { items = 0; workers = woken ∷ [] }

abbrev left_state : System
left_state = taken woken_again 0

start-Unused : Unused start.queue 5
start-Unused [] c k = k
start-Unused (a ∷ l) (c, _) k = absurd (no c)
  where
    no : none ≡ some a → ⊥
    no e = cc

stopped-Reach : Reach start stopped_state
unfolding submit
stopped-Reach =
    next (next (next (next here (submitted 5 7 9 start-Unused refl)) (posted 0 refl)) shut)
      (stopped refl)

left-Reach : Reach start left_state
unfolding take_node
left-Reach =
    next
      (next
        (next (next (next stopped-Reach (worker (wake 0 1 refl refl))) (worker (take_task 0 refl)))
          (worker (finish 0 5 refl)))
        (worker (wake 0 0 refl refl)))
      (worker (take_task 0 refl))

left_exited : total is_exited left_state.workers ≡ 1
unfolding take_node
left_exited = refl

Reach-in_order_example :
    (l : List ℕ) × Chain stopped_state.queue.nodes stopped_state.queue.q_head l
    × (stopped_state.accepted ≡ stopped_state.started ++ tasks stopped_state.queue.nodes l)
Reach-in_order_example = Reach-in_order empty_nodes 1 stopped_state stopped-Reach

exited-drained_example :
    (left_state.queue.shutting_down ≡ true)
    × (left_state.queue.q_head ≡ none)
    × (left_state.accepted ≡ left_state.started)
exited-drained_example =
    exited-drained empty_nodes 1 left_state left-Reach (omega (arith, left_exited))

Moves-Bounded_example :
    (1 ≤ measure stopped_state)
    × ((total is_exited woken_state.workers ≡ length woken_state.workers)
        ⊎ ((u : System) × Move woken_state u))
Moves-Bounded_example =
    Moves-Bounded empty_nodes 1 stopped_state woken_state 1 stopped-Reach refl (omega arith)
      (move still (wake 0 1 refl refl))

-- The second of three threads is refused.
abbrev platform : Platform
platform = record { mutex_made = true; semaphore_made = true; spawned = λ i. ltb i 1 }

abbrev world : World ℕ
world = record { heap = 0; locks = 2; semaphores = 1; threads = 1 }

abbrev blank : ThreadPool ℕ
blank = record { allocator = none; threads = none; thread_count = 0; shared = start }

-- The workers move in turns, the last one first.
abbrev last_first : ℕ → List ℕ
last_first zero = []
last_first (suc n) = n ∷ last_first n

last_first-Contains : (n i : ℕ) → i < n → Contains (last_first n) i
last_first-Contains zero i lt = absurd (omega arith)
last_first-Contains (suc n) i lt = elim order [
  | inl e ↦ inl e
  | inr below ↦ inr (last_first-Contains n i below)
]
  where
    order : (i ≡ n) ⊎ (i < n)
    order = omega arith

abbrev schedule : Schedule
schedule = record { rounds = 12; order = λ k. last_first 3 }

single-IsFair : IsFair schedule.order 1
single-IsFair k i lt = last_first-Contains 3 i (omega arith)

posted-Reach : Reach start posted_state
unfolding submit
posted-Reach = next (next here (submitted 5 7 9 start-Unused refl)) (posted 0 refl)

-- A pool of one worker, with the task still queued.
abbrev pool : ThreadPool ℕ
pool = record blank { threads = some (replicate 8 0); thread_count = 1; shared = posted_state }

destroy-Gone_example :
    (p' : ThreadPool ℕ) × (w' : World ℕ) × (destroy model_libc platform schedule 0 (some pool) world
      ≡ some ([], some p', w'))
    × Gone model_libc platform schedule pool
        (replicate 8 0)
        (record world { locks = 1; semaphores = 0; threads = 0 })
        world
        p'
        w'
destroy-Gone_example =
    destroy-Gone model_libc platform schedule empty_nodes pool (replicate 8 0)
      (record world { locks = 1; semaphores = 0; threads = 0 }) world 0 refl (omega arith)
      posted-Reach refl single-IsFair (omega arith) (refl, refl, refl)
