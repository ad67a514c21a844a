-- ===== src/Concurrency/ThreadPool/Schedule.antt =====
-- The workers run while the caller of pthread_join waits: a schedule gives the order in which the
-- system lets them move, in rounds.
use egl_utils_c.Base.{
  ℕ, zero, suc, true, Option, none, some, List, [], ◌∷◌, Contains, ◌<◌, get_elem?, set,
}
use egl_utils_c.Concurrency.ThreadPool.{Worker, waiting, woken, running, exited}
use egl_utils_c.Concurrency.ThreadPool.System.{System, taken}

pub record Schedule : Type 0 where
  pub rounds : ℕ
  pub order : ℕ → List ℕ

-- Every round lets each of the `n` workers move.
abbrev pub IsFair : (ℕ → List ℕ) → ℕ → Type 0
IsFair order n = (k i : ℕ) → i < n → Contains (order k) i

-- d4np_semaphore_wait of the worker `i` blocks without a permit.
abbrev pub pass_wait : ℕ → ℕ → System → Option System
pass_wait zero i s = none
pass_wait (suc n) i s = some (record s { items = n; workers = set s.workers i woken })

-- The next move of a worker, by where it is: `none` if it is blocked, gone or no worker.
abbrev pub next_move : Option Worker → ℕ → System → Option System
next_move none i s = none
next_move (some waiting) i s = pass_wait s.items i s
next_move (some woken) i s = some (taken s i)
next_move (some (running a)) i s = some (record s { workers = set s.workers i waiting })
next_move (some exited) i s = none

abbrev pub moved : Option System → System → System
moved none s = s
moved (some t) s = t

abbrev pub turn : ℕ → System → System
turn i s = moved (next_move (get_elem? s.workers i) i s) s

unfoldable pub run : List ℕ → System → System
run [] s = s
run (i ∷ l) s = run l (turn i s)

unfoldable pub run_rounds : ℕ → (ℕ → List ℕ) → System → System
unfolding run
run_rounds zero order s = s
run_rounds (suc k) order s = run_rounds k (λ j. order (suc j)) (run (order 0) s)

-- What destroy, and the rollback of init, do to the workers before they join them: the flag is set,
-- and a permit is posted for each of the `n`.
abbrev pub begin_shutdown : System → System
begin_shutdown s = record s { queue = record s.queue { shutting_down = true } }

abbrev pub post_stops : ℕ → System → System
post_stops zero s = s
post_stops (suc n) s = post_stops n (record s { stops = suc s.stops; items = suc s.items })

unfoldable pub stop_workers : Schedule → ℕ → System → System
unfolding run_rounds
stop_workers schedule n s =
    run_rounds schedule.rounds schedule.order (post_stops n (begin_shutdown s))
