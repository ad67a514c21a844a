-- ===== src/Concurrency/ThreadPool/Fair.antt =====
-- Under every fair schedule the workers that are told to stop all leave.
use egl_utils_c.Base.{
  ℕ, zero, suc, ◌<◌, ◌≡◌, refl, sym, ap, subst, ◌∙◌, arith, ◌⊎◌, inl, inr, Option, none, some, List,
  [], ◌∷◌, Contains, length, get_elem?, set,
}
use egl_utils_c.Concurrency.ThreadPool.{Worker, waiting, woken, running, exited}
use egl_utils_c.Concurrency.ThreadPool.System.{System, taken, Move, wake, take_task, finish}
use egl_utils_c.Concurrency.ThreadPool.Invariant.{total, is_exited}
use egl_utils_c.Concurrency.ThreadPool.Progress.{Moves, still, move, measure, move-measure}
use egl_utils_c.Concurrency.ThreadPool.Schedule.{pass_wait, next_move, moved, turn, run, run_rounds}

abbrev pub AllExited : System → Type 0
AllExited s = total is_exited s.workers ≡ length s.workers

abbrev pub Idle : System → ℕ → Type 0
Idle s i = next_move (get_elem? s.workers i) i s ≡ none

Moves-front : {s t u : System} {n : ℕ} → Move s t → Moves t u n → Moves s u (suc n)
Moves-front m still = move still m
Moves-front m (move r k) = move (Moves-front m r) k

Moves-append : {s t u : System} {m n : ℕ} → Moves s t m → Moves t u n → (k : ℕ) × Moves s u k
Moves-append {m = m} r still = (m, r)
Moves-append r (move q k) = let (n, all) = Moves-append r q in (suc n, move all k)

-- What a turn of a worker does, by where it is.
abbrev Turned : System → ℕ → Option Worker → Type 0
Turned s i o = (next_move o i s ≡ none) ⊎ Move s (moved (next_move o i s) s)

waiting-Turned :
    (s : System) (i n : ℕ)
    → get_elem? s.workers i ≡ some waiting
    → s.items ≡ n
    → (pass_wait n i s ≡ none) ⊎ Move s (moved (pass_wait n i s) s)
waiting-Turned s i zero at e = inl refl
waiting-Turned s i (suc n) at e = inr (wake i n at e)

turn-Turned : (s : System) (i : ℕ) (o : Option Worker) → get_elem? s.workers i ≡ o → Turned s i o
turn-Turned s i none at = inl refl
turn-Turned s i (some waiting) at = waiting-Turned s i s.items at refl
turn-Turned s i (some woken) at = inr (take_task i at)
turn-Turned s i (some (running a)) at = inr (finish i a at)
turn-Turned s i (some exited) at = inl refl

Idle-turn : (s : System) (i : ℕ) → Idle s i → turn i s ≡ s
Idle-turn s i e = ap (λ o. moved o s) e

-- A run either moves no worker, since all that are in turn are idle, or brings the measure down.
pub run-progress :
    (l : List ℕ) (s : System)
    → ((run l s ≡ s) × ((i : ℕ) → Contains l i → Idle s i)) ⊎ (measure (run l s) < measure s)
unfolding run
run-progress [] s = inl (refl, λ i k. absurd k)
run-progress (i ∷ l) s = elim (turn-Turned s i (get_elem? s.workers i) refl) [
  | inl idle ↦
      let stay = Idle-turn s i idle in
      elim (run-progress l s) [
        | inl (same, all) ↦ inl (
          ap (run l) stay ∙ same,
          λ j k. elim k [ inl e ↦ subst (Idle s) (sym e) idle | inr later ↦ all j later ],
        )
        | inr less ↦ inr (subst (λ t. measure (run l t) < measure s) (sym stay) less)
      ]
  | inr m ↦
      let first = move-measure m in
      elim (run-progress l (turn i s)) [
        | inl (same, _) ↦ inr (subst (λ t. measure t < measure s) (sym same) first)
        | inr less ↦ inr (omega arith)
      ]
]

pub run-Moves : (l : List ℕ) (s : System) → (n : ℕ) × Moves s (run l s) n
unfolding run
run-Moves [] s = (0, still)
run-Moves (i ∷ l) s = elim (turn-Turned s i (get_elem? s.workers i) refl) [
  | inl idle ↦ subst (λ t. (n : ℕ) × Moves s (run l t) n) (sym (Idle-turn s i idle)) (run-Moves l s)
  | inr m ↦ let (n, r) = run-Moves l (turn i s) in (suc n, Moves-front m r)
]

pub rounds-Moves :
    (k : ℕ) (order : ℕ → List ℕ) (s : System) → (n : ℕ) × Moves s (run_rounds k order s) n
unfolding run_rounds
rounds-Moves zero order s = (0, still)
rounds-Moves (suc k) order s =
    let (m, first) = run-Moves (order 0) s in
    let (n, rest) = rounds-Moves k (λ j. order (suc j)) (run (order 0) s) in Moves-append first rest

get_elem?-lt : (ws : List Worker) (i : ℕ) (w : Worker) → get_elem? ws i ≡ some w → i < length ws
get_elem?-lt [] i w e = absurd (no e)
  where
    no : none ≡ some w → ⊥
    no e = cc
get_elem?-lt (v ∷ ws) zero w e = omega arith
get_elem?-lt (v ∷ ws) (suc i) w e = omega (arith, get_elem?-lt ws i w e)

-- Who can move is not idle.
pub move-busy : {s u : System} → Move s u → (i : ℕ) × (i < length s.workers) × ¬ Idle s i
move-busy {s} (wake i n at e) = (
  i,
  get_elem?-lt s.workers i waiting at,
  λ idle. clash n (sym (ap (λ o. next_move o i s) at ∙ ap (λ k. pass_wait k i s) e) ∙ idle),
)
  where
    clash : (n : ℕ) → some (record s { items = n; workers = set s.workers i woken }) ≡ none → ⊥
    clash n e = cc
move-busy {s} (take_task i at) = (
  i,
  get_elem?-lt s.workers i woken at,
  λ idle. clash (sym (ap (λ o. next_move o i s) at) ∙ idle),
)
  where
    clash : some (taken s i) ≡ none → ⊥
    clash e = cc
move-busy {s} (finish i a at) = (
  i,
  get_elem?-lt s.workers i (running a) at,
  λ idle. clash (sym (ap (λ o. next_move o i s) at) ∙ idle),
)
  where
    clash : some (record s { workers = set s.workers i waiting }) ≡ none → ⊥
    clash e = cc
