-- ===== src/Pool/WorkerLoop/Wakeup.antt =====
-- worker_loop.cpp: the workers that wait, under `PostTask` and `Shutdown`.
use engi_cs.Base.{
  ℕ, ◌≡◌, ◌≢◌, ◌⊎◌, inl, inr, refl, Bool, true, false, Option, none, some, List, [], ◌∷◌, ◌==◌, ap,
  sym, Bool-cases, arith, update,
}
use engi_cs.Base.Int.{ℤ}
use engi_cs.Pool.TaskQueue.{TaskQueue}
use engi_cs.Pool.WorkerLoop.{
  Result, Worker, spinning, waiting, exited, WorkerLoop, post_global, post_task, has_work, pass,
  notify_all, shut_down,
}

module _ (tq : TaskQueue) (w : WorkerLoop tq) (i : ℕ) where
  post_global-workers : (v : WorkerLoop tq) (x : ℕ) → (post_global tq v x).1.workers ≡ v.workers
  unfolding post_global
  post_global-workers v x = ground arith

  -- `PostTask` leaves every worker where it is: one that waits is not woken by a new task, in
  -- whichever queue it is put, and its passes do nothing.
  pub post_wakes_nobody :
      (current : Option ℕ) (x : ℕ) (thread_id : ℤ) (spins : ℕ) (spurious : ℕ → Bool)
      {r : Result × WorkerLoop tq}
      → post_task tq w current x thread_id ≡ some r
      → w.workers i ≡ waiting spins
      → (r.1.workers i ≡ waiting spins) × (pass tq r.1 i spurious ≡ some (0, r.1))
  unfolding post_task pass post_global
  post_wakes_nobody current x thread_id spins spurious h e = ground arith

same_number : (i j : ℕ) → (i == j) ≡ true → i ≡ j
same_number i j e = ground (arith, e)

-- The passes of some workers, one after the other.
module _ (tq : TaskQueue) where
  -- `none` is a fault of a pass.
  unfoldable pub passes : WorkerLoop tq → List (ℕ × (ℕ → Bool)) → Option (WorkerLoop tq)
  passes w [] = some w
  passes w ((i, spurious) ∷ ps) = elim (pass tq w i spurious) [
    | none ↦ none
    | some (task, w') ↦ passes w' ps
  ]

  abbrev pub Named : ℕ → List (ℕ × (ℕ → Bool)) → Type 0
  Named j [] = ⊥
  Named j (p ∷ ps) = (p.0 ≡ j) ⊎ Named j ps

  -- Of two loops, the second with the passes of some workers behind it after a shutdown.
  abbrev pub Ended : WorkerLoop tq → List (ℕ × (ℕ → Bool)) → WorkerLoop tq → Type 0
  Ended w ps r =
      ((j n : ℕ) → w.workers j ≡ waiting n → r.workers j ≡ waiting n)
      × ((j : ℕ) → w.workers j ≡ exited → r.workers j ≡ exited)
      × ((j n : ℕ) → w.workers j ≡ spinning n → Named j ps → r.workers j ≡ exited)

  worker_cases :
      (v : Worker) → ((n : ℕ) × (v ≡ spinning n)) ⊎ (((n : ℕ) × (v ≡ waiting n)) ⊎ (v ≡ exited))
  worker_cases (spinning n) = inl (n, refl)
  worker_cases (waiting n) = inr (inl (n, refl))
  worker_cases exited = inr (inr refl)

  -- A worker whose loop has ended keeps it so, as does one that waits, and one in its loop ends it.
  one_pass :
      (w : WorkerLoop tq) (i : ℕ) (spurious : ℕ → Bool)
      → w.shutdown ≡ true
      → (r : WorkerLoop tq) × (pass tq w i spurious ≡ some (0, r))
        × (r.shutdown ≡ true)
        × ((j n : ℕ) → w.workers j ≡ waiting n → r.workers j ≡ waiting n)
        × ((j : ℕ) → w.workers j ≡ exited → r.workers j ≡ exited)
        × ((j n : ℕ) → w.workers j ≡ spinning n → i ≡ j → r.workers j ≡ exited)
        × ((j n : ℕ) → w.workers j ≡ spinning n → i ≢ j → r.workers j ≡ spinning n)
  unfolding pass
  one_pass w i spurious down = elim (worker_cases (w.workers i)) [
    | inl (m, spins) ↦ (
      record w { workers = update w.workers i exited },
      ground (arith, spins),
      down,
      λ j n e. elim (Bool-cases (j == i)) [
        | inl same ↦ absurd (ground (arith, ap w.workers (sym (same_number j i same)), spins, e))
        | inr other ↦ rw other e
      ],
      λ j e. elim (Bool-cases (j == i)) [ inl same ↦ rw same refl | inr other ↦ rw other e ],
      λ j n e same. ground (arith, same),
      λ j n e other. ground (arith, e, other),
    )
    | inr (inl (m, waits)) ↦ (
      w,
      ground (arith, waits),
      down,
      λ j n e. e,
      λ j e. e,
      λ j n e same. absurd (ground (arith, ap w.workers same, waits, e)),
      λ j n e other. e,
    )
    | inr (inr out) ↦ (
      w,
      ground (arith, out),
      down,
      λ j n e. e,
      λ j e. e,
      λ j n e same. absurd (ground (arith, ap w.workers same, out, e)),
      λ j n e other. e,
    )
  ]

  passes_lem :
      (ps : List (ℕ × (ℕ → Bool))) (w : WorkerLoop tq)
      → w.shutdown ≡ true
      → (r : WorkerLoop tq) × (passes w ps ≡ some r) × Ended w ps r
  unfolding passes
  passes_lem [] w down = (w, refl, (λ j n e. e, λ j e. e, λ j n e named. absurd named))
  passes_lem ((i, spurious) ∷ ps) w down =
      let (v, run, down', waits, outs, here, there) = one_pass w i spurious down in
      let (r, runs, (waits', outs', ends)) = passes_lem ps v down' in
      (
        r,
        rw (run, passes) runs,
        (
          λ j n e. waits' j n (waits j n e),
          λ j e. outs' j (outs j e),
          λ j n e named. elim (Bool-cases (i == j)) [
            | inl same ↦ outs' j (here j n e (same_number i j same))
            | inr other ↦ elim named [
              | inl same ↦ outs' j (here j n e same)
              | inr later ↦ ends j n (there j n e (λ eq. ground (arith, other, eq))) later
            ]
          ],
        ),
      )

  -- `Shutdown` of a loop that runs, and then any passes of any workers: none faults, and a worker that
  -- passes is out of its loop if it was in it, or if it waited and its queue or the shared queue was
  -- not empty. A worker that waited while its queue and the shared queue were empty still waits after
  -- them all: the predicate of its wait does not look at `m_shutdown`.
  pub shut_down_strands :
      (w : WorkerLoop tq) (ps : List (ℕ × (ℕ → Bool)))
      → w.shutdown ≡ false
      → (r : WorkerLoop tq) × (passes (shut_down tq w) ps ≡ some r)
        × ((j n : ℕ) → w.workers j ≡ spinning n → Named j ps → r.workers j ≡ exited)
        × ((j n : ℕ)
            → w.workers j ≡ waiting n
            → has_work tq w j ≡ true
            → Named j ps
            → r.workers j ≡ exited)
        × ((j n : ℕ) → w.workers j ≡ waiting n → has_work tq w j ≡ false → r.workers j ≡ waiting n)
  unfolding shut_down notify_all has_work
  shut_down_strands w ps up =
      let s = shut_down tq w in
      let (r, runs, (waits, outs, ends)) = passes_lem ps s (ground (arith, up)) in
      (
        r,
        runs,
        λ j n e named. ends j n (ground (arith, up, e)) named,
        λ j n e work named. ends j n (ground (arith, up, e, work)) named,
        λ j n e idle. waits j n (ground (arith, up, e, idle)),
      )
