-- ===== src/Concurrency/ThreadPool/Accept.antt =====
-- Submit keeps the invariant of the pool, whatever it answers.
use egl_utils_c.Base.{
  ℕ, suc, ◌<◌, ◌≡◌, sym, ap, subst, ◌∙◌, arith, inl, inr, true, false, Bool-cases, none, some, List,
  [], ◌∷◌, ◌++◌, Contains, length, length-append,
}
use egl_utils_c.Core.Status.{ok, unsupported}
use egl_utils_c.Concurrency.ThreadPool.{TaskQueue, submit}
use egl_utils_c.Concurrency.ThreadPool.Chain.{tasks, Holds, tasks-store}
use egl_utils_c.Concurrency.ThreadPool.Queue.{filled, filled-Holds, submit-Holds, submit-closed}
use egl_utils_c.Concurrency.ThreadPool.System.{System, Unused}
use egl_utils_c.Concurrency.ThreadPool.Invariant.{total, is_exited, Inv, HasInv, append_assoc}

-- A submit that answered OK came before the shutdown, so no worker has left.
submitted-Inv :
    (s : System) (l : List ℕ) (a fn arg : ℕ) (q' : TaskQueue)
    → Inv s l
    → s.queue.shutting_down ≡ false
    → Holds q' (l ++ (a ∷ []))
    → tasks q'.nodes (l ++ (a ∷ [])) ≡ tasks s.queue.nodes l ++ ((fn, arg) ∷ [])
    → q'.shutting_down ≡ false
    → Inv
        (record s { queue = q'; posts = suc s.posts; accepted = s.accepted ++ ((fn, arg) ∷ []) })
        (l ++ (a ∷ []))
submitted-Inv s l a fn arg q' v open_ h more open' = record {
  holds = h;
  history =
      ap (λ k. k ++ ((fn, arg) ∷ [])) v.history
      ∙ append_assoc s.started (tasks s.queue.nodes l) ((fn, arg) ∷ [])
      ∙ ap (λ k. s.started ++ k) (sym more);
  balance = omega (arith, v.balance, length-append l (a ∷ []));
  stopping = λ lt. absurd (clash (sym (v.stopping lt) ∙ open_));
  drained = λ lt. absurd (clash (sym (v.stopping (stops lt)) ∙ open_));
}
  where
    clash : (true ≡ false) → ⊥
    clash e = cc

    stops : 0 < total is_exited s.workers → 0 < s.stops
    stops lt = let none_left : length l ≡ 0 = ap length (v.drained lt) in omega (arith, v.balance)

filled-Inv :
    (s : System) (l : List ℕ) (a fn arg : ℕ)
    → Inv s l
    → ¬ Contains l a
    → Inv (record s { queue = filled s.queue a fn arg }) l
filled-Inv s l a fn arg v out = record {
  holds = filled-Holds s.queue l a fn arg v.holds out;
  history =
      v.history
      ∙ ap (λ k. s.started ++ k)
          (sym (tasks-store s.queue.nodes a (record { next = none; fn = fn; arg = arg }) l out));
  balance = v.balance;
  stopping = v.stopping;
  drained = v.drained;
}

pub submitted-HasInv :
    (s : System) (l : List ℕ) (a fn arg : ℕ) (q' : TaskQueue)
    → Inv s l
    → Unused s.queue a
    → submit (some a) (some fn) arg (some s.queue) ≡ (ok, some q')
    → HasInv
        (record s { queue = q'; posts = suc s.posts; accepted = s.accepted ++ ((fn, arg) ∷ []) })
submitted-HasInv s l a fn arg q' v free e = elim (Bool-cases s.queue.shutting_down) [
  | inl closed ↦ absurd (wrong (ap (λ r. r.0) (sym (submit-closed s.queue a fn arg closed) ∙ e)))
  | inr open_ ↦
      let (q, done, h, more, open') =
        submit-Holds s.queue l a fn arg v.holds (free l v.holds.chain) open_ in
      let result : some q ≡ some q' = ap (λ r. r.1) (sym done ∙ e) in
      let same : q ≡ q' = cc in
      subst
        (λ m.
          HasInv (record s {
            queue = m;
            posts = suc s.posts;
            accepted = s.accepted ++ ((fn, arg) ∷ []);
          }))
        same (l ++ (a ∷ []), submitted-Inv s l a fn arg q v open_ h more open')
]
  where
    wrong : (unsupported ≡ ok) → ⊥
    wrong e = cc

pub refused-HasInv :
    (s : System) (l : List ℕ) (a fn arg : ℕ) (q' : TaskQueue)
    → Inv s l
    → Unused s.queue a
    → submit (some a) (some fn) arg (some s.queue) ≡ (unsupported, some q')
    → HasInv (record s { queue = q' })
refused-HasInv s l a fn arg q' v free e = elim (Bool-cases s.queue.shutting_down) [
  | inl closed ↦
      let result : some (filled s.queue a fn arg) ≡ some q' =
        ap (λ r. r.1) (sym (submit-closed s.queue a fn arg closed) ∙ e) in
      let same : filled s.queue a fn arg ≡ q' = cc in
      subst (λ m. HasInv (record s { queue = m })) same
        (l, filled-Inv s l a fn arg v (free l v.holds.chain))
  | inr open_ ↦
      let (q, done, _, _, _) =
        submit-Holds s.queue l a fn arg v.holds (free l v.holds.chain) open_ in
      absurd (wrong (ap (λ r. r.0) (sym done ∙ e)))
]
  where
    wrong : (ok ≡ unsupported) → ⊥
    wrong e = cc
