-- ===== src/Concurrency/ThreadPool/Progress.antt =====
-- Destroy's joins return: with the stops posted, the workers finish and leave.
use egl_utils_c.Base.{
  ℕ, zero, suc, ◌+◌, ◌*◌, ◌≤◌, ◌<◌, ◌≡◌, refl, ◌∙◌, arith, ◌⊎◌, inl, inr, Option, none, some, List,
  [], ◌∷◌, length, get_elem?, set, length-set,
}
use egl_utils_c.Concurrency.ThreadPool.{
  TaskNode, Worker, waiting, woken, running, exited, take_node, after_take,
}
use egl_utils_c.Concurrency.ThreadPool.System.{
  System, taken, Move, wake, take_task, finish, started_pool, Reach,
}
use egl_utils_c.Concurrency.ThreadPool.Invariant.{
  total, total-set, is_woken, is_exited, Inv, HasInv,
}
use egl_utils_c.Concurrency.ThreadPool.Drain.{started_pool-HasInv, Reach-HasInv, move-HasInv}

-- How many moves a worker has before it at most, without another permit.
abbrev pub moves_left : Worker → ℕ
moves_left waiting = 0
moves_left woken = 3
moves_left (running a) = 1
moves_left exited = 0

abbrev pub measure : System → ℕ
measure s = 4 * s.items + total moves_left s.workers

-- A run of the workers alone, with its number of moves.
pub data Moves (s : System) : System → ℕ → Type 0 where
  still : Moves s s 0
  move : {t u : System} {n : ℕ} → Moves s t n → Move t u → Moves s u (suc n)

after_take-left : (o : Option ℕ) → moves_left (after_take o) ≤ 1
after_take-left none = omega arith
after_take-left (some a) = omega arith

pub move-measure : {s t : System} → Move s t → measure t < measure s
move-measure {s} (wake i n at e) = omega (arith, total-set moves_left s.workers i waiting woken at)
move-measure {s} (take_task i at) =
    let w : Worker = after_take (take_node s.queue).0 in
    omega
      (arith, total-set moves_left s.workers i woken w at, after_take-left (take_node s.queue).0)
move-measure {s} (finish i a at) =
    omega (arith, total-set moves_left s.workers i (running a) waiting at)

Moves-measure : {s t : System} {n : ℕ} → Moves s t n → n + measure t ≤ measure s
Moves-measure still = omega arith
Moves-measure (move r m) = omega (arith, Moves-measure r, move-measure m)

-- What the workers' moves leave alone.
abbrev pub Same : System → System → Type 0
Same s t =
    (t.posts ≡ s.posts)
    × (t.stops ≡ s.stops)
    × (length t.workers ≡ length s.workers)
    × (t.accepted ≡ s.accepted)

pub move-Same : {s t : System} → Move s t → Same s t
move-Same {s} (wake i n at e) = (refl, refl, length-set s.workers i woken, refl)
move-Same {s} (take_task i at) =
    (refl, refl, length-set s.workers i (after_take (take_node s.queue).0), refl)
move-Same {s} (finish i a at) = (refl, refl, length-set s.workers i waiting, refl)

pub Moves-Same : {s t : System} {n : ℕ} → Moves s t n → Same s t
Moves-Same still = (refl, refl, refl, refl)
Moves-Same (move r m) =
    let (p, q, l, a) = Moves-Same r in
    let (p', q', l', a') = move-Same m in (p' ∙ p, q' ∙ q, l' ∙ l, a' ∙ a)

pub Moves-HasInv : {s t : System} {n : ℕ} → HasInv s → Moves s t n → HasInv t
Moves-HasInv v still = v
Moves-HasInv v (move r m) = move-HasInv (Moves-HasInv v r) m

-- Where the workers are: one is past its wait or at a task, or all are waiting or gone.
abbrev At : List Worker → Worker → Type 0
At ws w = (i : ℕ) × (get_elem? ws i ≡ some w)

abbrev Ready : List Worker → Type 0
Ready ws = At ws woken ⊎ ((a : ℕ) × At ws (running a))

later-Ready : (w : Worker) (ws : List Worker) → Ready ws → Ready (w ∷ ws)
later-Ready w ws (inl (i, e)) = inl (suc i, e)
later-Ready w ws (inr (a, (i, e))) = inr (a, (suc i, e))

Calm : List Worker → Type 0
Calm ws =
    (total is_woken ws ≡ 0)
    × ((total is_exited ws ≡ length ws) ⊎ ((total is_exited ws < length ws) × At ws waiting))

Calm-cons : (w : Worker) (ws : List Worker) → Calm ws → Calm (w ∷ ws) ⊎ Ready (w ∷ ws)
unfolding Calm
Calm-cons waiting ws (c, inl e) = inl (omega arith, inr (omega arith, (0, refl)))
Calm-cons waiting ws (c, inr (lt, _)) = inl (omega arith, inr (omega arith, (0, refl)))
Calm-cons woken ws c = inr (inl (0, refl))
Calm-cons (running a) ws c = inr (inr (a, (0, refl)))
Calm-cons exited ws (c, inl e) = inl (omega arith, inl (omega arith))
Calm-cons exited ws (c, inr (lt, (i, at))) = inl (omega arith, inr (omega arith, (suc i, at)))

workers-cases : (ws : List Worker) → Calm ws ⊎ Ready ws
unfolding Calm
workers-cases [] = inl (refl, inl refl)
workers-cases (w ∷ ws) = elim (workers-cases ws) [
  | inl c ↦ Calm-cons w ws c
  | inr r ↦ inr (later-Ready w ws r)
]

-- A worker at its wait finds a permit, since there is a stop for each.
wake-now :
    (t : System) (l : List ℕ) (i : ℕ)
    → Inv t l
    → t.posts ≡ 0
    → length t.workers ≤ t.stops
    → total is_woken t.workers ≡ 0
    → total is_exited t.workers < length t.workers
    → get_elem? t.workers i ≡ some waiting
    → (u : System) × Move t u
wake-now t l i v p enough w lt at =
    let (n, e) = positive t.items (omega (arith, v.balance)) in
    (record t { items = n; workers = set t.workers i woken }, wake i n at e)
  where
    positive : (k : ℕ) → 0 < k → (n : ℕ) × (k ≡ suc n)
    positive zero lt = absurd (omega arith)
    positive (suc n) lt = (n, refl)

pub can_move :
    (t : System)
    → HasInv t
    → t.posts ≡ 0
    → length t.workers ≤ t.stops
    → (total is_exited t.workers ≡ length t.workers) ⊎ ((u : System) × Move t u)
unfolding Calm
can_move t (l, v) p enough = elim (workers-cases t.workers) [
  | inl (w, inl all) ↦ inl all
  | inl (w, inr (lt, (i, at))) ↦ inr (wake-now t l i v p enough w lt at)
  | inr (inl (i, at)) ↦ inr (taken t i, take_task i at)
  | inr (inr (a, (i, at))) ↦ inr (record t { workers = set t.workers i waiting }, finish i a at)
]

-- No deadlock at shutdown: once destroy has posted as many permits as there are workers and no submit
-- is between its unlock and its post, every run of the workers' moves is at most as long as the
-- measure says, and at its end all workers have left their loops or one of them can still move, the
-- end of a task being a move. So every join of destroy returns, if every task does.
pub Moves-Bounded :
    (nodes : ℕ → TaskNode) (n : ℕ) (s t : System) (k : ℕ)
    → Reach (started_pool nodes n) s
    → s.posts ≡ 0
    → length s.workers ≤ s.stops
    → Moves s t k
    → (k ≤ measure s) × ((total is_exited t.workers ≡ length t.workers) ⊎ ((u : System) × Move t u))
Moves-Bounded nodes n s t k r p enough run =
    let (posts, stops, size, _) = Moves-Same run in
    let v = Moves-HasInv (Reach-HasInv (started_pool-HasInv nodes n) r) run in
    (omega (arith, Moves-measure run), can_move t v (posts ∙ p) (omega arith))
