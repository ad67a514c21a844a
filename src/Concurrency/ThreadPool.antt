-- ===== src/Concurrency/ThreadPool.antt =====
-- d4np/concurrency/thread_pool.h and thread_pool.c: the task queue and what is done to it under the
-- lock. A node is its address, and the heap gives the contents of each.
pub mod Chain
pub mod Queue
pub mod System
pub mod Invariant
pub mod Accept
pub mod Drain
pub mod Progress
pub mod Schedule
pub mod Fair
pub mod Stopping
pub mod Setup
pub mod Threads
pub mod Rollback
pub mod Teardown
mod Tests
use egl_utils_c.Base.{
  ℕ, zero, suc, Bool, true, false, Option, none, some, List, [], ◌∷◌, ◌==◌, if◌then◌else◌,
}
use egl_utils_c.Core.Status.{Status, ok, invalid_argument, out_of_memory, unsupported}

-- struct d4np_task_node
pub record TaskNode : Type 0 where
  pub next : Option ℕ
  pub fn : ℕ
  pub arg : ℕ

-- The members of d4np_thread_pool_t that the lock guards, with the heap of the nodes.
pub record TaskQueue : Type 0 where
  pub nodes : ℕ → TaskNode
  pub q_head : Option ℕ
  pub q_tail : Option ℕ
  pub shutting_down : Bool

abbrev pub store_node : (ℕ → TaskNode) → ℕ → TaskNode → ℕ → TaskNode
store_node nodes a n x = if a == x then n else nodes x

-- The tail that is left with a new head.
abbrev pub tail_after : Option ℕ → Option ℕ → Option ℕ
tail_after none tail = none
tail_after (some a) tail = tail

-- What a worker does between lock and unlock: the node it takes, NULL from an empty queue.
abbrev pub take_head : Option ℕ → TaskQueue → Option ℕ × TaskQueue
take_head none q = (none, q)
take_head (some node) q =
    let next = (q.nodes node).next in
    (some node, record q { q_head = next; q_tail = tail_after next q.q_tail })

unfoldable pub take_node : TaskQueue → Option ℕ × TaskQueue
take_node q = take_head q.q_head q

abbrev pub link_after : Option ℕ → ℕ → TaskQueue → TaskQueue
link_after none node q = record q { q_head = some node; q_tail = some node }
link_after (some t) node q = record q {
  nodes = store_node q.nodes t (record (q.nodes t) { next = some node });
  q_tail = some node;
}

unfoldable pub enqueue : ℕ → TaskQueue → TaskQueue
enqueue node q = link_after q.q_tail node q

-- d4np_thread_pool_submit up to the unlock, with the node that the allocator returned; the post that
-- follows is a step of its own in System.antt. A pool or a function that is NULL is `none`.
unfoldable pub submit : Option ℕ → Option ℕ → ℕ → Option TaskQueue → Status × Option TaskQueue
unfolding enqueue
submit _ _ arg none = (invalid_argument, none)
submit _ none arg (some q) = (invalid_argument, some q)
submit none (some fn) arg (some q) = (out_of_memory, some q)
submit (some node) (some fn) arg (some q) =
    let filled = record q {
      nodes = store_node q.nodes node (record { next = none; fn = fn; arg = arg });
    } in
    if q.shutting_down then (unsupported, some filled) else (ok, some (enqueue node filled))

-- Where a worker is in its loop: before the wait, between the wait and the lock, at the task of a
-- node, out of the loop.
pub data Worker : Type 0 where
  waiting : Worker
  woken : Worker
  running : ℕ → Worker
  exited : Worker

abbrev pub after_take : Option ℕ → Worker
after_take none = exited
after_take (some node) = running node
