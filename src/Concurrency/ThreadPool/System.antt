-- ===== src/Concurrency/ThreadPool/System.antt =====
-- The workers, the submitters and destroy, interleaved in any order. The code between lock and
-- unlock is one step, a post and a passed wait are one step each.
use egl_utils_c.Base.{
  ℕ, zero, suc, ◌≡◌, true, false, Option, none, some, List, [], ◌∷◌, ◌++◌, Contains, get_elem?, set,
}
use egl_utils_c.Core.Status.{ok, unsupported}
use egl_utils_c.Concurrency.ThreadPool.{
  TaskNode, TaskQueue, Worker, waiting, woken, running, take_node, submit, after_take,
}
use egl_utils_c.Concurrency.ThreadPool.Chain.{Chain, Task, task_of}

-- `items` is the number of permits, `posts` counts the submitters between their unlock and their
-- post, `stops` the posts that destroy has made. `accepted` and `started` record the tasks that
-- submit answered OK for and those that workers took.
pub record System : Type 0 where
  pub queue : TaskQueue
  pub items : ℕ
  pub posts : ℕ
  pub stops : ℕ
  pub workers : List Worker
  pub accepted : List Task
  pub started : List Task

-- The allocator hands out no node that is in the queue.
abbrev pub Unused : TaskQueue → ℕ → Type 0
Unused q a = (l : List ℕ) → Chain q.nodes q.q_head l → ¬ Contains l a

-- The node is the worker's own once taken, so its task is read here.
abbrev pub task_at : (ℕ → TaskNode) → Option ℕ → List Task
task_at nodes none = []
task_at nodes (some a) = task_of (nodes a) ∷ []

-- pool_worker, from the lock to the unlock, by the worker `i`.
abbrev pub taken : System → ℕ → System
taken s i =
    let (a, q') = take_node s.queue in
    record s {
      queue = q';
      workers = set s.workers i (after_take a);
      started = s.started ++ task_at s.queue.nodes a;
    }

-- A step of a worker: d4np_semaphore_wait returns with a permit, the critical section, the task's
-- end.
pub data Move (s : System) : System → Type 0 where
  wake :
      (i n : ℕ)
      → get_elem? s.workers i ≡ some waiting
      → s.items ≡ suc n
      → Move s (record s { items = n; workers = set s.workers i woken })
  take_task : (i : ℕ) → get_elem? s.workers i ≡ some woken → Move s (taken s i)
  finish :
      (i a : ℕ)
      → get_elem? s.workers i ≡ some (running a)
      → Move s (record s { workers = set s.workers i waiting })

pub data Step (s : System) : System → Type 0 where
  worker : {t : System} → Move s t → Step s t
  submitted :
      (a fn arg : ℕ) {q' : TaskQueue}
      → Unused s.queue a
      → submit (some a) (some fn) arg (some s.queue) ≡ (ok, some q')
      → Step s
          (record s { queue = q'; posts = suc s.posts; accepted = s.accepted ++ ((fn, arg) ∷ []) })
  refused :
      (a fn arg : ℕ) {q' : TaskQueue}
      → Unused s.queue a
      → submit (some a) (some fn) arg (some s.queue) ≡ (unsupported, some q')
      → Step s (record s { queue = q' })
  posted : (n : ℕ) → s.posts ≡ suc n → Step s (record s { posts = n; items = suc s.items })
  shut : Step s (record s { queue = record s.queue { shutting_down = true } })
  stopped :
      s.queue.shutting_down ≡ true → Step s (record s { stops = suc s.stops; items = suc s.items })

-- The pool that init leaves, with `workers` at their first wait.
abbrev pub all_waiting : ℕ → List Worker
all_waiting zero = []
all_waiting (suc n) = waiting ∷ all_waiting n

abbrev pub started_pool : (ℕ → TaskNode) → ℕ → System
started_pool nodes n = record {
  queue = record { nodes = nodes; q_head = none; q_tail = none; shutting_down = false };
  items = 0;
  posts = 0;
  stops = 0;
  workers = all_waiting n;
  accepted = [];
  started = [];
}

pub data Reach (s : System) : System → Type 0 where
  here : Reach s s
  next : {t u : System} → Reach s t → Step t u → Reach s u
