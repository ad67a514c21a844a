-- ===== src/Concurrency/ThreadPool/Invariant.antt =====
-- The invariant of the pool, and that the moves of the workers keep it.
use egl_utils_c.Base.{
  ℕ, zero, suc, ◌+◌, ◌<◌, ◌≡◌, refl, sym, ap, ◌∙◌, arith, true, none, some, List, [], ◌∷◌, ◌++◌,
  length, get_elem?, set,
}
use egl_utils_c.Concurrency.ThreadPool.{TaskQueue, Worker, waiting, woken, running, exited}
use egl_utils_c.Concurrency.ThreadPool.Chain.{Task, task_of, tasks, Holds}
use egl_utils_c.Concurrency.ThreadPool.Queue.{take_node-empty, take_node-Holds}
use egl_utils_c.Concurrency.ThreadPool.System.{System, taken}

abbrev pub total : (Worker → ℕ) → List Worker → ℕ
total f [] = 0
total f (w ∷ ws) = f w + total f ws

pub total-set :
    (f : Worker → ℕ) (ws : List Worker) (i : ℕ) (v w : Worker)
    → get_elem? ws i ≡ some v
    → total f (set ws i w) + f v ≡ total f ws + f w
total-set f [] i v w e = absurd (no e)
  where
    no : none ≡ some v → ⊥
    no e = cc
total-set f (u ∷ ws) zero v w e =
    let same : u ≡ v = (let s : some u ≡ some v = e in cc) in
    let k : f u ≡ f v = ap f same in omega arith
total-set f (u ∷ ws) (suc i) v w e = omega (arith, total-set f ws i v w e)

abbrev pub is_woken : Worker → ℕ
is_woken woken = 1
is_woken w = 0

abbrev pub is_exited : Worker → ℕ
is_exited exited = 1
is_exited w = 0

-- Every permit that was posted and not used up by a task stands for a task or a stop.
pub record Inv (s : System) (l : List ℕ) : Type 0 where
  pub holds : Holds s.queue l
  pub history : s.accepted ≡ s.started ++ tasks s.queue.nodes l
  pub balance :
      s.items + total is_woken s.workers + s.posts + total is_exited s.workers ≡ length l + s.stops
  pub stopping : 0 < s.stops → s.queue.shutting_down ≡ true
  pub drained : 0 < total is_exited s.workers → l ≡ []

abbrev pub HasInv : System → Type 0
HasInv s = (l : List ℕ) × Inv s l

pub append-nil : (k : List Task) → k ++ [] ≡ k
append-nil [] = refl
append-nil (x ∷ k) = ap (λ r. x ∷ r) (append-nil k)

pub append_assoc : (k l m : List Task) → (k ++ l) ++ m ≡ k ++ (l ++ m)
append_assoc [] l m = refl
append_assoc (x ∷ k) l m = ap (λ r. x ∷ r) (append_assoc k l m)

pub wake-Inv :
    (s : System) (l : List ℕ) (i n : ℕ)
    → Inv s l
    → get_elem? s.workers i ≡ some waiting
    → s.items ≡ suc n
    → Inv (record s { items = n; workers = set s.workers i woken }) l
wake-Inv s l i n v at e =
    let w = total-set is_woken s.workers i waiting woken at in
    let x = total-set is_exited s.workers i waiting woken at in
    record {
      holds = v.holds;
      history = v.history;
      balance = omega (arith, v.balance);
      stopping = v.stopping;
      drained = λ lt. v.drained (omega arith);
    }

pub finish-Inv :
    (s : System) (l : List ℕ) (i a : ℕ)
    → Inv s l
    → get_elem? s.workers i ≡ some (running a)
    → Inv (record s { workers = set s.workers i waiting }) l
finish-Inv s l i a v at =
    let w = total-set is_woken s.workers i (running a) waiting at in
    let x = total-set is_exited s.workers i (running a) waiting at in
    record {
      holds = v.holds;
      history = v.history;
      balance = omega (arith, v.balance);
      stopping = v.stopping;
      drained = λ lt. v.drained (omega arith);
    }

-- A worker that finds the queue empty has a stop's permit, and leaves.
leave-Inv :
    (s : System) (i : ℕ)
    → Inv s []
    → get_elem? s.workers i ≡ some woken
    → Inv (record s { workers = set s.workers i exited; started = s.started ++ [] }) []
leave-Inv s i v at =
    let w = total-set is_woken s.workers i woken exited at in
    let x = total-set is_exited s.workers i woken exited at in
    record {
      holds = v.holds;
      history = v.history ∙ ap (λ k. k ++ []) (sym (append-nil s.started));
      balance = omega (arith, v.balance);
      stopping = v.stopping;
      drained = λ lt. refl;
    }

take-Inv :
    (s : System) (i a : ℕ) (l : List ℕ) (q' : TaskQueue)
    → Inv s (a ∷ l)
    → get_elem? s.workers i ≡ some woken
    → Holds q' l
    → q'.nodes ≡ s.queue.nodes
    → q'.shutting_down ≡ s.queue.shutting_down
    → Inv
        (record s {
          queue = q';
          workers = set s.workers i (running a);
          started = s.started ++ (task_of (s.queue.nodes a) ∷ []);
        })
        l
take-Inv s i a l q' v at h nodes down =
    let w = total-set is_woken s.workers i woken (running a) at in
    let x = total-set is_exited s.workers i woken (running a) at in
    record {
      holds = h;
      history =
          v.history
          ∙ sym (append_assoc s.started (task_of (s.queue.nodes a) ∷ []) (tasks s.queue.nodes l))
          ∙ ap (λ n. (s.started ++ (task_of (s.queue.nodes a) ∷ [])) ++ tasks n l) (sym nodes);
      balance = omega (arith, v.balance);
      stopping = λ lt. down ∙ v.stopping lt;
      drained = λ lt. absurd (cons-nil (v.drained (omega arith)));
    }
  where
    cons-nil : (a ∷ l ≡ []) → ⊥
    cons-nil e = cc

pub taken-HasInv :
    (s : System) (l : List ℕ) (i : ℕ)
    → Inv s l
    → get_elem? s.workers i ≡ some woken
    → HasInv (taken s i)
taken-HasInv s [] i v at = rw (take_node-empty s.queue v.holds) ([], leave-Inv s i v at)
taken-HasInv s (a ∷ l) i v at =
    let (q', e, h, nodes, down) = take_node-Holds s.queue a l v.holds in
    rw e (l, take-Inv s i a l q' v at h nodes down)
