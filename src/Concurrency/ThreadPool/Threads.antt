-- ===== src/Concurrency/ThreadPool/Threads.antt =====
-- The loops of init and destroy over the threads.
use egl_utils_c.Base.{
  ℕ, zero, suc, ◌+◌, ◌-◌, ◌≤◌, ◌≡◌, refl, arith, inl, inr, Bool, true, false, Bool-cases, some,
  List, [], ◌∷◌, length,
}
use egl_utils_c.Concurrency.ThreadPool.{Worker, waiting, woken, running, exited}
use egl_utils_c.Concurrency.ThreadPool.Invariant.{total, is_exited}
use egl_utils_c.Concurrency.ThreadPool.Stopping.{exited_le}
use egl_utils_c.Concurrency.ThreadPool.Setup.{World, join_all, spawn_all}

module _ {S : Type 0} where
  -- The two worlds have the same heap and the same live objects, but for the threads.
  abbrev pub Alike : World S → World S → Type 0
  Alike w w' = (w'.heap ≡ w.heap) × (w'.locks ≡ w.locks) × (w'.semaphores ≡ w.semaphores)

  -- Joining workers that have all left returns, with their threads gone.
  pub join_all-Alike :
      (ws : List Worker) (w : World S)
      → total is_exited ws ≡ length ws
      → (w' : World S) × (join_all ws w ≡ some w')
        × Alike w w'
        × (w'.threads ≡ w.threads - length ws)
  join_all-Alike [] w all = (w, refl, (refl, refl, refl), omega arith)
  join_all-Alike (waiting ∷ ws) w all = absurd (omega (arith, exited_le ws))
  join_all-Alike (woken ∷ ws) w all = absurd (omega (arith, exited_le ws))
  join_all-Alike (running a ∷ ws) w all = absurd (omega (arith, exited_le ws))
  join_all-Alike (exited ∷ ws) w all =
      let (w', done, same, e) =
        join_all-Alike ws (record w { threads = w.threads - 1 }) (omega arith) in
      (w', done, same, omega arith)

  -- What the spawning loop leaves.
  abbrev pub Counted : ℕ → ℕ → World S → Bool × ℕ × World S → Type 0
  Counted n i w (done, j, w') =
      Alike w w'
      × (w'.threads + i ≡ w.threads + j)
      × (i ≤ j)
      × ((done ≡ true) → j ≡ i + n)
      × (j ≤ i + n)

  pub spawn_all-Counted :
      (spawned : ℕ → Bool) (n i : ℕ) (w : World S) → Counted n i w (spawn_all spawned n i w)
  unfolding spawn_all
  spawn_all-Counted spawned zero i w =
      ((refl, refl, refl), refl, omega arith, (λ e. omega arith), omega arith)
  spawn_all-Counted spawned (suc n) i w = elim (Bool-cases (spawned i)) [
    | inl made ↦
        let (same, threads, le, all, fit) =
          spawn_all-Counted spawned n (suc i) (record w { threads = suc w.threads }) in
        rw made (same, omega arith, omega arith, (λ e. omega (arith, all e)), omega arith)
    | inr failed ↦
        rw failed ((refl, refl, refl), refl, omega arith, (λ e. absurd (clash e)), omega arith)
  ]
    where
      clash : (false ≡ true) → ⊥
      clash e = cc
