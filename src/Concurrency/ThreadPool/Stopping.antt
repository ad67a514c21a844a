-- ===== src/Concurrency/ThreadPool/Stopping.antt =====
-- Workers that have a permit each leave, whatever the fair schedule.
use egl_utils_c.Base.{
  ℕ, zero, suc, ◌+◌, ◌*◌, ◌≤◌, ◌≡◌, refl, sym, ap, subst, ◌∙◌, arith, true, inl, inr, List, [], ◌∷◌,
  length,
}
use egl_utils_c.Concurrency.ThreadPool.{
  TaskNode, Worker, waiting, woken, running, exited, take_node, after_take,
}
use egl_utils_c.Concurrency.ThreadPool.System.{
  System, Move, wake, take_task, finish, Step, worker, submitted, refused, posted, shut, stopped,
  all_waiting, started_pool, Reach, here, next,
}
use egl_utils_c.Concurrency.ThreadPool.Invariant.{total, total-set, is_exited, HasInv}
use egl_utils_c.Concurrency.ThreadPool.Drain.{started_pool-HasInv, Reach-HasInv}
use egl_utils_c.Concurrency.ThreadPool.Progress.{
  Moves, still, move, moves_left, measure, move-measure, move-Same, Moves-Same, Moves-HasInv,
  can_move,
}
use egl_utils_c.Concurrency.ThreadPool.Schedule.{
  Schedule, IsFair, run, run_rounds, begin_shutdown, post_stops, stop_workers,
}
use egl_utils_c.Concurrency.ThreadPool.Fair.{
  AllExited, run-progress, run-Moves, rounds-Moves, move-busy,
}

pub exited_le : (ws : List Worker) → total is_exited ws ≤ length ws
exited_le [] = omega arith
exited_le (waiting ∷ ws) = omega (arith, exited_le ws)
exited_le (woken ∷ ws) = omega (arith, exited_le ws)
exited_le (running a ∷ ws) = omega (arith, exited_le ws)
exited_le (exited ∷ ws) = omega (arith, exited_le ws)

-- Who has left does not come back.
move-exited : {s t : System} → Move s t → total is_exited s.workers ≤ total is_exited t.workers
move-exited {s} (wake i n at e) = omega (arith, total-set is_exited s.workers i waiting woken at)
move-exited {s} (take_task i at) =
    omega (arith, total-set is_exited s.workers i woken (after_take (take_node s.queue).0) at)
move-exited {s} (finish i a at) =
    omega (arith, total-set is_exited s.workers i (running a) waiting at)

Moves-exited :
    {s t : System} {n : ℕ} → Moves s t n → total is_exited s.workers ≤ total is_exited t.workers
Moves-exited still = omega arith
Moves-exited (move r m) = omega (arith, Moves-exited r, move-exited m)

stay-AllExited : {s t : System} {n : ℕ} → Moves s t n → AllExited s → AllExited t
stay-AllExited {s} {t} r all =
    let (_, _, size, _) = Moves-Same r in omega (arith, Moves-exited r, exited_le t.workers)

-- A round for each move that is left is enough.
pub rounds-AllExited :
    (k : ℕ) (order : ℕ → List ℕ) (s : System)
    → HasInv s
    → s.posts ≡ 0
    → length s.workers ≤ s.stops
    → IsFair order (length s.workers)
    → measure s ≤ k
    → AllExited (run_rounds k order s)
unfolding run_rounds
rounds-AllExited zero order s v p enough fair le = elim (can_move s v p enough) [
  | inl all ↦ all
  | inr (u, m) ↦ absurd (omega (arith, move-measure m))
]
rounds-AllExited (suc k) order s v p enough fair le = elim (run-progress (order 0) s) [
  | inl (same, idle) ↦ elim (can_move s v p enough) [
    | inl all ↦ stay-AllExited (rounds-Moves (suc k) order s).1 all
    | inr (u, m) ↦ let (i, lt, busy) = move-busy m in absurd (busy (idle i (fair 0 i lt)))
  ]
  | inr less ↦
      let (n, r) = run-Moves (order 0) s in
      let (posts, stops, size, _) = Moves-Same r in
      rounds-AllExited k (λ j. order (suc j)) (run (order 0) s) (Moves-HasInv v r) (posts ∙ p)
        (omega arith) (subst (IsFair (λ j. order (suc j))) (sym size) (λ j. fair (suc j)))
        (omega arith)
]

-- The posts of destroy are steps of the system.
post_stops-Reach :
    (n : ℕ) (s t : System) → t.queue.shutting_down ≡ true → Reach s t → Reach s (post_stops n t)
post_stops-Reach zero s t down r = r
post_stops-Reach (suc n) s t down r =
    post_stops-Reach n s (record t { stops = suc t.stops; items = suc t.items }) down
      (next r (stopped down))

abbrev Posted : ℕ → System → System → Type 0
Posted n s t =
    (t.posts ≡ s.posts)
    × (t.stops ≡ s.stops + n)
    × (t.items ≡ s.items + n)
    × (t.workers ≡ s.workers)
    × (t.accepted ≡ s.accepted)

post_stops-Posted : (n : ℕ) (s : System) → Posted n s (post_stops n s)
post_stops-Posted zero s = (refl, omega arith, omega arith, refl, refl)
post_stops-Posted (suc n) s =
    let (p, t, i, w, a) =
      post_stops-Posted n (record s { stops = suc s.stops; items = suc s.items }) in
    (p, omega arith, omega arith, w, a)

step-length : {s t : System} → Step s t → length t.workers ≡ length s.workers
step-length (worker m) = (move-Same m).2
step-length (submitted a fn arg free e) = refl
step-length (refused a fn arg free e) = refl
step-length (posted n e) = refl
step-length shut = refl
step-length (stopped down) = refl

Reach-length : {s t : System} → Reach s t → length t.workers ≡ length s.workers
Reach-length here = refl
Reach-length (next r st) = step-length st ∙ Reach-length r

pub length-all_waiting : (n : ℕ) → length (all_waiting n) ≡ n
length-all_waiting zero = refl
length-all_waiting (suc n) = ap suc (length-all_waiting n)

Reach-Moves : {s t u : System} {n : ℕ} → Reach s t → Moves t u n → Reach s u
Reach-Moves r still = r
Reach-Moves r (move q m) = next (Reach-Moves r q) (worker m)

-- Workers that have left, by steps of the system.
abbrev pub Left : (ℕ → TaskNode) → ℕ → System → System → Type 0
Left nodes n s t =
    AllExited t
    × (length t.workers ≡ n)
    × Reach (started_pool nodes n) t
    × (t.accepted ≡ s.accepted)

-- A pool that has been set up with `n` workers, in any state in which no submit is about to post, is
-- told to stop: under every fair schedule, with a round for each move that may be left, all leave.
pub stop_workers-Left :
    (nodes : ℕ → TaskNode) (n : ℕ) (s : System) (schedule : Schedule)
    → Reach (started_pool nodes n) s
    → s.posts ≡ 0
    → IsFair schedule.order n
    → 4 * (s.items + n) + total moves_left s.workers ≤ schedule.rounds
    → Left nodes n s (stop_workers schedule n s)
unfolding stop_workers
stop_workers-Left nodes n s schedule r p fair le =
    let begun : System = begin_shutdown s in
    let t : System = post_stops n begun in
    let reached : Reach (started_pool nodes n) t =
      post_stops-Reach n (started_pool nodes n) begun refl (next r shut) in
    let (posts, stops, items, ws, acc) = post_stops-Posted n begun in
    let size : length t.workers ≡ n = Reach-length reached ∙ length-all_waiting n in
    let v = Reach-HasInv (started_pool-HasInv nodes n) reached in
    let left : total moves_left t.workers ≡ total moves_left s.workers = ap (total moves_left) ws in
    let (k, moves) = rounds-Moves schedule.rounds schedule.order t in
    let (_, _, same, kept) = Moves-Same moves in
    (
      rounds-AllExited schedule.rounds schedule.order t v (posts ∙ p) (omega arith)
          (subst (IsFair schedule.order) (sym size) fair) (omega arith),
      same ∙ size,
      Reach-Moves reached moves,
      kept ∙ acc,
    )
