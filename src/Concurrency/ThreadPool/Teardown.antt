-- ===== src/Concurrency/ThreadPool/Teardown.antt =====
-- Destroy of thread_pool.c.
use egl_utils_c.Base.{
  ℕ, zero, suc, ◌+◌, ◌*◌, ◌≤◌, ◌<◌, ◌≡◌, refl, sym, ap, ◌∙◌, arith, Option, none, some, [], Bytes,
  mul_size, ◌>>=◌,
}
use egl_utils_c.Core.Allocator.{Libc, free}
use egl_utils_c.Concurrency.ThreadPool.{TaskNode}
use egl_utils_c.Concurrency.ThreadPool.System.{System, started_pool, Reach}
use egl_utils_c.Concurrency.ThreadPool.Invariant.{total, is_exited}
use egl_utils_c.Concurrency.ThreadPool.Drain.{exited-drained}
use egl_utils_c.Concurrency.ThreadPool.Progress.{moves_left}
use egl_utils_c.Concurrency.ThreadPool.Schedule.{Schedule, IsFair, stop_workers}
use egl_utils_c.Concurrency.ThreadPool.Stopping.{Left, stop_workers-Left}
use egl_utils_c.Concurrency.ThreadPool.Setup.{
  ThreadPool, Platform, World, handle_size, drop_lock, drop_semaphore, free_threads, drain_nodes,
  destroy_threads, destroy,
}
use egl_utils_c.Concurrency.ThreadPool.Threads.{join_all-Alike}

drain_nodes-null :
    (fuel : ℕ) (nodes : ℕ → TaskNode) (head : Option ℕ)
    → head ≡ none
    → drain_nodes fuel nodes head ≡ some []
unfolding drain_nodes
drain_nodes-null zero nodes head e = rw e refl
drain_nodes-null (suc fuel) nodes head e = rw e refl

module _ {S : Type 0} (libc : Libc S) (platform : Platform) (schedule : Schedule) where
  -- What destroy leaves of a pool that was set up in the world `w0`.
  abbrev pub Gone : ThreadPool S → Bytes → World S → World S → ThreadPool S → World S → Type 0
  Gone p b w0 w p' w' =
      (total is_exited p'.shared.workers ≡ p.thread_count)
      × (p'.shared.started ≡ p.shared.accepted)
      × (p'.shared.queue.q_head ≡ none)
      × (p'.threads ≡ none)
      × (w'.locks ≡ w0.locks)
      × (w'.semaphores ≡ w0.semaphores)
      × (w'.threads ≡ w0.threads)
      × (w'.heap ≡ free libc p.allocator (some b) (mul_size p.thread_count handle_size) w.heap)

  threads-Gone :
      (nodes : ℕ → TaskNode) (p : ThreadPool S) (b : Bytes) (w0 w : World S) (fuel : ℕ)
      → p.threads ≡ some b
      → 0 < p.thread_count
      → Left nodes p.thread_count p.shared (stop_workers schedule p.thread_count p.shared)
      → (w.locks ≡ suc w0.locks)
        × (w.semaphores ≡ suc w0.semaphores)
        × (w.threads ≡ w0.threads + p.thread_count)
      → (p' : ThreadPool S) × (w' : World S) × (destroy_threads libc platform schedule fuel
            (some b)
            p
            w
          ≡ some ([], p', w'))
        × Gone p b w0 w p' w'
  unfolding destroy_threads
  threads-Gone nodes p b w0 w fuel et pos (all, size, reached, kept) (locks, sems, threads) =
      let left : System = stop_workers schedule p.thread_count p.shared in
      let p' : ThreadPool S = record p {
        threads = none;
        shared = record left { queue = record left.queue { q_head = none; q_tail = none } };
      } in
      let (w1, joined, (h1, l1, s1), t1) = join_all-Alike left.workers w all in
      let (_, empty, ran) = exited-drained nodes p.thread_count left reached (omega arith) in
      let drained = drain_nodes-null fuel left.queue.nodes left.queue.q_head empty in
      let w' : World S =
        drop_lock (drop_semaphore (free_threads libc platform schedule p p.thread_count w1)) in
      (
        p',
        w',
        ap
              (λ o. o >>= (λ x. drain_nodes fuel left.queue.nodes left.queue.q_head >>= (λ f. some (
                f,
                p',
                drop_lock (drop_semaphore (free_threads libc platform schedule p p.thread_count x)),
              ))))
              joined
            ∙ ap (λ o. o >>= (λ f. some (f, p', w'))) drained,
        (
          all ∙ size,
          sym ran ∙ kept,
          refl,
          refl,
          omega arith,
          omega arith,
          omega arith,
          ap (λ t. free libc p.allocator t (mul_size p.thread_count handle_size) w1.heap) et
              ∙ ap (λ h. free libc p.allocator (some b) (mul_size p.thread_count handle_size) h) h1,
        ),
      )

  -- Destroy of a pool in any state that its workers and submitters reach from init, with no submit
  -- between its unlock and its post: in whatever fair order the workers run (with a round for each move
  -- that may be left), it returns. Every worker has left its loop and is joined, every task that submit
  -- accepted was taken by a worker, none is freed in the queue, the handles are freed, and there are as
  -- many mutexes, semaphores and threads as in the world `w0` before init.
  pub destroy-Gone :
      (nodes : ℕ → TaskNode) (p : ThreadPool S) (b : Bytes) (w0 w : World S) (fuel : ℕ)
      → p.threads ≡ some b
      → 0 < p.thread_count
      → Reach (started_pool nodes p.thread_count) p.shared
      → p.shared.posts ≡ 0
      → IsFair schedule.order p.thread_count
      → 4 * (p.shared.items + p.thread_count) + total moves_left p.shared.workers ≤ schedule.rounds
      → (w.locks ≡ suc w0.locks)
        × (w.semaphores ≡ suc w0.semaphores)
        × (w.threads ≡ w0.threads + p.thread_count)
      → (p' : ThreadPool S) × (w' : World S) × (destroy libc platform schedule fuel (some p) w
          ≡ some ([], some p', w'))
        × Gone p b w0 w p' w'
  unfolding destroy
  destroy-Gone nodes p b w0 w fuel et pos r posts fair enough made =
      let left = stop_workers-Left nodes p.thread_count p.shared schedule r posts fair enough in
      let (p', w', done, gone) = threads-Gone nodes p b w0 w fuel et pos left made in
      (
        p',
        w',
        ap
              (λ t.
                destroy_threads libc platform schedule fuel t p w
                >>= (λ x. some (x.0, some x.1, x.2)))
              et
            ∙ ap (λ o. o >>= (λ x. some (x.0, some x.1, x.2))) done,
        gone,
      )
