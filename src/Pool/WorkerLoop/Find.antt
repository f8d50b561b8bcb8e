-- ===== src/Pool/WorkerLoop/Find.antt =====
-- What a pass of `Run` finds, and what it leaves in the queues.
use engi_cs.Base.{
  ℕ, ◌+◌, ◌≡◌, ◌≢◌, inl, inr, Bool, some, get_elem?, set, ◌==◌, Bool-cases, Option-cases, arith,
}
use engi_cs.Deque.{Wsq}
use engi_cs.Pool.TaskQueue.{TaskQueue}
use engi_cs.Pool.WorkerLoop.{WorkerLoop, find_steal, find_global, find_task}
use engi_cs.Pool.WorkerLoop.Held.{
  Ready, AllValid, one, Ready-AllValid, at-IsValid, AllValid-set, held-set, count-pop,
  steal_from_count,
}
use engi_cs.Pool.WorkerLoop.Conserve.{total}

module _ (tq : TaskQueue) where
  -- The task found is gone from the queues, and nothing else is.
  abbrev pub Found : WorkerLoop tq → ℕ × WorkerLoop tq → Type 0
  Found w r = AllValid r.1.threads × ((y : ℕ) → y ≢ 0 → total tq y w ≡ one y r.0 + total tq y r.1)

  find_steal-Found :
      (w : WorkerLoop tq) (i : ℕ) (spurious : ℕ → Bool)
      → AllValid w.threads
      → (r : ℕ × WorkerLoop tq) × (find_steal tq w i spurious ≡ some r) × Found w r
  unfolding find_steal
  find_steal-Found w i spurious v =
      let (x, qs, run, valid, same) = steal_from_count w.threads 0 i spurious v in
      ((x, record w { threads = qs }), ground arith, (valid, λ y h. omega (arith, same y h)))

  find_global-Found :
      (w : WorkerLoop tq) (i : ℕ) (spurious : ℕ → Bool)
      → AllValid w.threads
      → (r : ℕ × WorkerLoop tq) × (find_global tq w i spurious ≡ some r) × Found w r
  unfolding find_global
  find_global-Found w i spurious v = elim (Option-cases (tq.try_dequeue w.global)) [
    | inl e ↦ let (r, run, found) = find_steal-Found w i spurious v in (r, ground arith, found)
    | inr ((x, g), e) ↦ (
      (x, record w { global = g }),
      ground arith,
      (v, λ y h. omega (arith, tq.try_dequeue_lem w.global e y)),
    )
  ]

  -- A pass of worker `i` over valid local queues never faults: it finds a task, or the null
  -- pointer, and whatever compare-exchanges fail, each task is as often in the queues afterwards
  -- as before, less the one found.
  pub find_task_conserves :
      (w : WorkerLoop tq) (i : ℕ) (spurious : ℕ → Bool) {q : Wsq}
      → get_elem? w.threads i ≡ some q
      → Ready w.threads
      → (x : ℕ) × (w' : WorkerLoop tq) × (find_task tq w i spurious ≡ some (x, w'))
        × AllValid w'.threads
        × ((y : ℕ) → y ≢ 0 → total tq y w ≡ one y x + total tq y w')
  unfolding find_task
  find_task_conserves w i spurious e ready =
      let (q_valid, _) = at-IsValid w.threads i e ready in
      let (x, r, run, valid, counted) = count-pop q_valid in
      let v = AllValid-set w.threads i r (Ready-AllValid w.threads ready) valid in
      let w' = record w { threads = set w.threads i r } in
      elim (Bool-cases (x == 0)) [
        | inr own ↦
            (x, w', ground arith, v, λ y h. omega (arith, held-set y w.threads i r e, counted y h))
        | inl nothing ↦
            let (r', found, both) = find_global-Found w' i spurious v in
            (
              r'.0,
              r'.1,
              ground arith,
              both.0,
              λ y h. ground (arith, held-set y w.threads i r e, counted y h, both.1 y h),
            )
      ]
