-- ===== src/Concurrency/ThreadPool/Drain.antt =====
-- Every step keeps the invariant; what it says when a worker has left.
use egl_utils_c.Base.{
  ℕ, zero, suc, ◌<◌, ◌≡◌, refl, ap, subst, ◌∙◌, arith, true, none, List, [], ◌++◌, length,
}
use egl_utils_c.Concurrency.ThreadPool.{TaskNode}
use egl_utils_c.Concurrency.ThreadPool.Chain.{Chain, tasks}
use egl_utils_c.Concurrency.ThreadPool.System.{
  System, Move, wake, take_task, finish, Step, worker, submitted, refused, posted, shut, stopped,
  all_waiting, started_pool, Reach, here, next,
}
use egl_utils_c.Concurrency.ThreadPool.Invariant.{
  total, is_woken, is_exited, Inv, HasInv, wake-Inv, finish-Inv, taken-HasInv, append-nil,
}
use egl_utils_c.Concurrency.ThreadPool.Accept.{submitted-HasInv, refused-HasInv}

pub move-HasInv : {s t : System} → HasInv s → Move s t → HasInv t
move-HasInv {s} (l, v) (wake i n at e) = (l, wake-Inv s l i n v at e)
move-HasInv {s} (l, v) (take_task i at) = taken-HasInv s l i v at
move-HasInv {s} (l, v) (finish i a at) = (l, finish-Inv s l i a v at)

Step-HasInv : {s t : System} → HasInv s → Step s t → HasInv t
Step-HasInv {s} v (worker m) = move-HasInv v m
Step-HasInv {s} (l, v) (submitted a fn arg {q'} free e) = submitted-HasInv s l a fn arg q' v free e
Step-HasInv {s} (l, v) (refused a fn arg {q'} free e) = refused-HasInv s l a fn arg q' v free e
Step-HasInv {s} (l, v) (posted n e) = (
  l,
  record {
    holds = v.holds;
    history = v.history;
    balance = omega (arith, v.balance);
    stopping = v.stopping;
    drained = v.drained;
  },
)
Step-HasInv {s} (l, v) shut = (
  l,
  record {
    holds = record { chain = v.holds.chain; tail = v.holds.tail; distinct = v.holds.distinct };
    history = v.history;
    balance = v.balance;
    stopping = λ lt. refl;
    drained = v.drained;
  },
)
Step-HasInv {s} (l, v) (stopped down) = (
  l,
  record {
    holds = v.holds;
    history = v.history;
    balance = omega (arith, v.balance);
    stopping = λ lt. down;
    drained = v.drained;
  },
)

total_waiting :
    (n : ℕ) → (total is_woken (all_waiting n) ≡ 0) × (total is_exited (all_waiting n) ≡ 0)
total_waiting zero = (refl, refl)
total_waiting (suc n) = (omega (arith, (total_waiting n).0), omega (arith, (total_waiting n).1))

pub started_pool-HasInv : (nodes : ℕ → TaskNode) (n : ℕ) → HasInv (started_pool nodes n)
started_pool-HasInv nodes n =
    let (w, x) = total_waiting n in
    (
      [],
      record {
        holds = record { chain = refl; tail = refl; distinct = tt };
        history = refl;
        balance = omega arith;
        stopping = λ lt. absurd (omega arith);
        drained = λ lt. refl;
      },
    )

pub Reach-HasInv : {s t : System} → HasInv s → Reach s t → HasInv t
Reach-HasInv v here = v
Reach-HasInv v (next r st) = Step-HasInv (Reach-HasInv v r) st

-- Whatever the interleaving of the workers, the submitters and destroy: the tasks that submit
-- accepted are those that workers took, in the same order and each once, followed by the tasks of the
-- nodes that are linked in the queue.
pub Reach-in_order :
    (nodes : ℕ → TaskNode) (n : ℕ) (s : System)
    → Reach (started_pool nodes n) s
    → (l : List ℕ) × Chain s.queue.nodes s.queue.q_head l
      × (s.accepted ≡ s.started ++ tasks s.queue.nodes l)
Reach-in_order nodes n s r =
    let (l, v) = Reach-HasInv (started_pool-HasInv nodes n) r in (l, v.holds.chain, v.history)

Inv-drained :
    (s : System) (l : List ℕ)
    → Inv s l
    → 0 < total is_exited s.workers
    → (s.queue.shutting_down ≡ true) × (s.queue.q_head ≡ none) × (s.accepted ≡ s.started)
Inv-drained s l v lt =
    let e : l ≡ [] = v.drained lt in
    let none_left : length l ≡ 0 = ap length e in
    (
      v.stopping (omega (arith, v.balance)),
      subst (λ k. Chain s.queue.nodes s.queue.q_head k) e v.holds.chain,
      v.history ∙ ap (λ k. s.started ++ tasks s.queue.nodes k) e ∙ append-nil s.started,
    )

-- The graceful drain: whatever the interleaving, once a worker has left its loop the pool is shutting
-- down, the queue is empty, and every task that submit accepted was taken, in the order of the
-- submits and once.
pub exited-drained :
    (nodes : ℕ → TaskNode) (n : ℕ) (s : System)
    → Reach (started_pool nodes n) s
    → 0 < total is_exited s.workers
    → (s.queue.shutting_down ≡ true) × (s.queue.q_head ≡ none) × (s.accepted ≡ s.started)
exited-drained nodes n s r lt =
    let (l, v) = Reach-HasInv (started_pool-HasInv nodes n) r in Inv-drained s l v lt
