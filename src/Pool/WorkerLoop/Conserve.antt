-- ===== src/Pool/WorkerLoop/Conserve.antt =====
-- worker_loop.cpp: what `PostTask` does to the number of tasks.
use engi_cs.Base.{
  ℕ, ◌+◌, ◌*◌, ◌≡◌, refl, zero, suc, ◌<◌, ◌≤◌, ◌++◌, ◌⊎◌, ◌∙◌, ap, sym, List, [], ◌∷◌, length,
  count-append, inl, inr, Option, none, some, get_elem?, set, count, Option-cases, arith,
}
use mathlib.Core.Path.{subst}
use mathlib.Core.Option.{some-injective}
use engi_cs.Deque.{Wsq}
use engi_cs.Deque.Refine.{contents, push_cases}
use engi_cs.ErrorCode.{queue_full}
use engi_cs.Base.Int.{ℤ}
use engi_cs.Pool.TaskQueue.{TaskQueue}
use engi_cs.Pool.WorkerLoop.{Result, succeeded, unexpected, WorkerLoop, post_global, post_task}
use engi_cs.Pool.WorkerLoop.Held.{
  Ready, AllValid, held, one, Ready-AllValid, at-IsValid, AllValid-set, held-set,
}

-- how many copies `PostTask` has stored
abbrev pub stored : Result → ℕ
stored succeeded = 1
stored (unexpected e) = 0

-- A write of what stands at an index changes nothing.
set-get_elem? : (qs : List Wsq) (i : ℕ) (q : Wsq) → get_elem? qs i ≡ some q → set qs i q ≡ qs
set-get_elem? [] i q e = refl
set-get_elem? (p ∷ qs) zero q e = ap (λ r. r ∷ qs) (sym (some-injective p q e))
set-get_elem? (p ∷ qs) (suc i) q e = ap (λ rs. p ∷ rs) (set-get_elem? qs i q e)

module _ (tq : TaskQueue) where
  -- how often a task is in a queue of the loop
  abbrev pub total : ℕ → WorkerLoop tq → ℕ
  total y w = held y w.threads + count y (tq.items w.global)

  -- The caller's own queue, if it is a worker.
  abbrev own_queue : WorkerLoop tq → Option ℕ → Option Wsq
  own_queue w none = none
  own_queue w (some i) = get_elem? w.threads i

  -- The caller is no worker, or its own queue has no room.
  abbrev pub NoRoom : WorkerLoop tq → Option ℕ → Type 0
  NoRoom w current =
      (own_queue w current ≡ none)
      ⊎ ((q : Wsq) × (own_queue w current ≡ some q) × (q.capacity ≤ length (contents q)))

  -- The task stands at the end of the caller's own queue, which had room; no other queue has changed.
  abbrev pub InOwn : WorkerLoop tq → Option ℕ → ℕ → Result × WorkerLoop tq → Type 0
  InOwn w none x r = ⊥
  InOwn w (some i) x r =
      (q : Wsq) × (q' : Wsq) × (get_elem? w.threads i ≡ some q)
      × (length (contents q) < q.capacity)
      × (contents q' ≡ contents q ++ (x ∷ []))
      × (r ≡ (succeeded, record w { threads = set w.threads i q' }))

  -- The task is in the shared queue, and the caller's own queue had no room for it.
  abbrev pub InShared : WorkerLoop tq → Option ℕ → ℕ → Result × WorkerLoop tq → Type 0
  InShared w current x r =
      NoRoom w current
      × ((g : tq.Queue) × (tq.enqueue w.global x ≡ some g)
          × (r ≡ (succeeded, record w { global = g })))

  -- Neither queue takes the task, and nothing has changed.
  abbrev pub Refused : WorkerLoop tq → Option ℕ → ℕ → Result × WorkerLoop tq → Type 0
  Refused w current x r =
      NoRoom w current × (tq.enqueue w.global x ≡ none) × (r ≡ (unexpected queue_full, w))

  abbrev pub Placed : WorkerLoop tq → Option ℕ → ℕ → Result × WorkerLoop tq → Type 0
  Placed w current x r = InOwn w current x r ⊎ (InShared w current x r ⊎ Refused w current x r)

  abbrev Posted : WorkerLoop tq → Option ℕ → ℕ → Result × WorkerLoop tq → Type 0
  Posted w current x r =
      AllValid r.1.threads
      × Placed w current x r
      × ((y : ℕ) → total y r.1 ≡ stored r.0 * one y x + total y w)

  post_global-Posted :
      (w : WorkerLoop tq) (current : Option ℕ) (x : ℕ)
      → AllValid w.threads
      → NoRoom w current
      → Posted w current x (post_global tq w x)
  unfolding post_global
  post_global-Posted w current x v no_room = elim (Option-cases (tq.enqueue w.global x)) [
    | inl e ↦
        let result : post_global tq w x ≡ (unexpected queue_full, w) = rw (post_global, e) refl in
        subst (Posted w current x) (sym result) (v, inr (inr (no_room, e, refl)), λ y. omega arith)
    | inr (g, e) ↦
        let result : post_global tq w x ≡ (succeeded, record w { global = g }) =
          rw (post_global, e) refl in
        subst (Posted w current x) (sym result)
          (v, inr (inl (no_room, (g, e, refl))), λ y. omega (arith, tq.enqueue_lem w.global x e y))
  ]

  -- `PostTask` of a loop whose local queues are valid never faults, whoever calls it. If the caller is
  -- a worker whose queue has room, the task stands at the end of this queue. If not, it goes to the
  -- shared queue if that takes it; these are the two successes, after which the task is stored once
  -- more than before. If the shared queue refuses it, the result is `QueueFull` and nothing has changed.
  pub post_task_conserves :
      (w : WorkerLoop tq) (current : Option ℕ) (x : ℕ) (thread_id : ℤ)
      → Ready w.threads
      → (r : Result × WorkerLoop tq) × (post_task tq w current x thread_id ≡ some r)
        × AllValid r.1.threads
        × Placed w current x r
        × ((y : ℕ) → total y r.1 ≡ stored r.0 * one y x + total y w)
  unfolding post_task
  post_task_conserves w none x thread_id ready =
      let (v, place, same) =
        post_global-Posted w none x (Ready-AllValid w.threads ready) (inl refl) in
      (post_global tq w x, refl, v, place, same)
  post_task_conserves w (some i) x thread_id ready = elim (Option-cases (get_elem? w.threads i)) [
    | inl e ↦
        let (v, place, same) =
          post_global-Posted w (some i) x (Ready-AllValid w.threads ready) (inl e) in
        (post_global tq w x, ground arith, v, place, same)
    | inr (q, e) ↦
        let (q_valid, q_room) = at-IsValid w.threads i e ready in
        elim (push_cases x q_valid q_room) [
          | inl (q', run, valid, room, more) ↦ (
            (succeeded, record w { threads = set w.threads i q' }),
            ground (arith, e, run),
            AllValid-set w.threads i q' (Ready-AllValid w.threads ready) valid,
            inl (q, q', e, room, more, refl),
            λ y. ground (
              arith,
              held-set y w.threads i q' e,
              ap (count y) more,
              count-append y (contents q) (x ∷ []),
            ),
          )
          | inr (run, full) ↦
              let same_threads = set-get_elem? w.threads i q e in
              let (v, place, same) =
                post_global-Posted w (some i) x (Ready-AllValid w.threads ready)
                  (inr (q, e, full)) in
              (
                post_global tq w x,
                ground (arith, e, run)
                    ∙ ap (λ ts. some (post_global tq (record w { threads = ts }) x)) same_threads,
                v,
                place,
                same,
              )
        ]
  ]
