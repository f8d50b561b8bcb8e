-- ===== src/Pool/Threadpool/Copies.antt =====
-- How many copies of a task `PostTask` leaves in the pool, and where.
use engi_cs.Base.{
  ℕ, ◌+◌, ◌*◌, ◌≡◌, ◌<◌, refl, ap, sym, ◌∙◌, Option, some, count, ◌%◌, ◌^◌, ltb, ◌==◌,
  if◌then◌else◌, Bool-cases, inl, inr, arith,
}
use engi_cs.Base.Int.{ℤ, pos, negsuc, rem32}
use engi_cs.ErrorCode.{EcsErrc, invalid_thread_token, invalid_thread_type}
use engi_cs.Pool.TaskQueue.{TaskQueue}
use engi_cs.Pool.Asio.{Asio}
use engi_cs.Pool.WorkerLoop.{Result, succeeded, unexpected}
use engi_cs.Pool.WorkerLoop.Held.{Ready, one}
use engi_cs.Pool.WorkerLoop.Conserve.{total, stored, post_task_conserves}
use engi_cs.Pool.Config.{PostConfig, compute}
use engi_cs.Pool.Threadpool.{
  Threadpool, get_any_thread_token, post_worker, post_event, and_event, post_config, post_compute,
  post_task,
}

-- For a thread token or a group a success is one copy; for `AnyThread` it is two.
abbrev pub copies : ℤ → Result → ℕ
copies (pos n) r = stored r
copies (negsuc n) r = if n == 0 then 2 * stored r else stored r

-- How many copies of a task with a configuration go to the worker loop and to the event loop, in a
-- pool of some workers, if `PostTask` succeeds.
abbrev pub to_workers : (workers : ℕ) → ℤ → ℕ
to_workers workers (pos n) = if ltb n workers then 1 else 0
to_workers workers (negsuc n) = if n == 0 then 1 else if n == 2 then 1 else 0

abbrev pub to_events : (workers : ℕ) → ℤ → ℕ
to_events workers (pos n) = if n == workers then 1 else 0
to_events workers (negsuc n) = if n == 0 then 1 else if n == 1 then 1 else 0

-- The error for a configuration that names no thread and no group.
abbrev pub Wrong : ℤ → Result → Type 0
Wrong (pos n) r = r ≡ unexpected invalid_thread_token
Wrong (negsuc n) r = r ≡ unexpected invalid_thread_type

module _ (tq : TaskQueue) (asio : Asio) where
  -- how often a task is in the queues of the workers, in the event loop, and in both
  abbrev pub in_workers : ℕ → Threadpool tq asio → ℕ
  in_workers y p = total tq y p.worker_loop

  abbrev pub in_events : ℕ → Threadpool tq asio → ℕ
  in_events y p = count y (asio.pending p.event_loop)

  abbrev pub pool_total : ℕ → Threadpool tq asio → ℕ
  pool_total y p = in_workers y p + in_events y p

  -- A call that stores a task `n` times for the workers and `k` times for the event loop if it
  -- succeeds, and not at all if it does not.
  abbrev pub Stores :
      (n k : ℕ) → ℕ → Threadpool tq asio → Option (Result × Threadpool tq asio) → Type 0
  Stores n k x p o =
      (r : Result × Threadpool tq asio) × (o ≡ some r)
      × ((y : ℕ) → in_workers y r.1 ≡ n * stored r.0 * one y x + in_workers y p)
      × ((y : ℕ) → in_events y r.1 ≡ k * stored r.0 * one y x + in_events y p)

  post_worker-Stores :
      (p : Threadpool tq asio) (current : Option ℕ) (x : ℕ) (token : ℤ)
      → Ready p.worker_loop.threads
      → Stores 1 0 x p (post_worker tq asio p current x token)
  post_worker-Stores p current x token ready =
      let (r, run, valid, place, same) =
        post_task_conserves tq p.worker_loop current x token ready in
      (
        (r.0, record p { worker_loop = r.1 }),
        ground arith,
        λ y. ground (arith, same y),
        λ y. ground arith,
      )

  post_event_adds :
      (p : Threadpool tq asio) (x y : ℕ)
      → in_events y (post_event tq asio p x).1 ≡ one y x + in_events y p
  post_event_adds p x y = omega (arith, asio.post_lem p.event_loop x y)

  post_event-Stores :
      (p : Threadpool tq asio) (x : ℕ) → Stores 0 1 x p (some (post_event tq asio p x))
  post_event-Stores p x =
      (post_event tq asio p x, refl, λ y. omega arith, λ y. omega (arith, post_event_adds p x y))

  -- On success `m_es.PostTask` adds a second copy.
  and_event-Stores :
      (p : Threadpool tq asio) (x : ℕ) (o : Option (Result × Threadpool tq asio))
      → Stores 1 0 x p o
      → Stores 1 1 x p (and_event tq asio x o)
  and_event-Stores p x o ((succeeded, q), e, workers, events) = (
    post_event tq asio q x,
    ground arith,
    λ y. omega (arith, workers y),
    λ y. omega (arith, events y, post_event_adds q x y),
  )
  and_event-Stores p x o ((unexpected err, q), e, workers, events) = (
    (unexpected err, q),
    ground arith,
    λ y. omega (arith, workers y),
    λ y. omega (arith, events y),
  )

  refused-Stores :
      (p : Threadpool tq asio) (x : ℕ) (e : EcsErrc) → Stores 0 0 x p (some (unexpected e, p))
  refused-Stores p x e = ((unexpected e, p), refl, λ y. omega arith, λ y. omega arith)

  -- `PostTask` with the value `c` of a configuration: how often it stores the task where, and its
  -- error if the value is wrong.
  abbrev pub Places : ℤ → ℕ → Threadpool tq asio → Option (Result × Threadpool tq asio) → Type 0
  Places c x p o =
      (r : Result × Threadpool tq asio) × (o ≡ some r)
      × ((y : ℕ)
          → in_workers y r.1 ≡ to_workers p.thread_nums c * stored r.0 * one y x + in_workers y p)
      × ((y : ℕ)
          → in_events y r.1 ≡ to_events p.thread_nums c * stored r.0 * one y x + in_events y p)
      × ((to_workers p.thread_nums c + to_events p.thread_nums c ≡ 0) → Wrong c r.0)

  Stores-Places :
      (n k : ℕ) (c : ℤ) (x : ℕ) (p : Threadpool tq asio) (o : Option (Result × Threadpool tq asio))
      → to_workers p.thread_nums c ≡ n
      → to_events p.thread_nums c ≡ k
      → 0 < n + k
      → Stores n k x p o
      → Places c x p o
  Stores-Places n k c x p o w e some_copy (r, run, workers, events) = (
    r,
    run,
    λ y. workers y ∙ ap (λ m. m * stored r.0 * one y x + in_workers y p) (sym w),
    λ y. events y ∙ ap (λ m. m * stored r.0 * one y x + in_events y p) (sym e),
    λ zero. absurd (omega arith),
  )

  token-Places :
      (p : Threadpool tq asio) (current : Option ℕ) (x n : ℕ)
      → Ready p.worker_loop.threads
      → Places (pos n) x p (post_config tq asio p current x (pos n))
  token-Places p current x n ready = elim (Bool-cases (ltb n p.thread_nums)) [
    | inl worker ↦
        Stores-Places 1 0 (pos n) x p _ (ground (arith, worker)) (ground (arith, worker))
          (omega arith) (rw worker (post_worker-Stores p current x (pos n) ready))
    | inr not_worker ↦ elim (Bool-cases (n == p.thread_nums)) [
      | inl event ↦
          Stores-Places 0 1 (pos n) x p _ (ground (arith, not_worker)) (ground (arith, event))
            (omega arith) (rw (not_worker, event) (post_event-Stores p x))
      | inr neither ↦ (
        (unexpected invalid_thread_token, p),
        rw (not_worker, neither) refl,
        λ y. ground (arith, not_worker),
        λ y. ground (arith, neither),
        λ e. refl,
      )
    ]
  ]

  compute-Stores :
      (p : Threadpool tq asio) (current : Option ℕ) (x : ℕ)
      → Ready p.worker_loop.threads
      → 0 < p.thread_nums
      → Stores 1 0 x p (post_compute tq asio current x (get_any_thread_token tq asio p compute))
  unfolding get_any_thread_token
  compute-Stores p current x ready some_threads =
      let q = record p { ticket = (p.ticket + 1) % 2 ^ 32 } in
      let (r, run, workers, events) =
        post_worker-Stores q current x (rem32 p.ticket p.thread_nums) ready in
      (r, ground arith, workers, events)

  config-Places :
      (p : Threadpool tq asio) (current : Option ℕ) (x : ℕ) (c : ℤ)
      → Ready p.worker_loop.threads
      → 0 < p.thread_nums
      → Places c x p (post_config tq asio p current x c)
  config-Places p current x (pos n) ready some_threads = token-Places p current x n ready
  config-Places p current x (negsuc n) ready some_threads = elim (Bool-cases (n == 0)) [
    | inl any_thread ↦
        Stores-Places 1 1 (negsuc n) x p _ (ground (arith, any_thread)) (ground (arith, any_thread))
          (omega arith)
          (rw any_thread (
            and_event-Stores p x (post_worker tq asio p current x (negsuc 0))
              (post_worker-Stores p current x (negsuc 0) ready)))
    | inr not_any ↦ elim (Bool-cases (n == 2)) [
      | inl computes ↦
          Stores-Places 1 0 (negsuc n) x p _ (ground (arith, computes)) (ground (arith, computes))
            (omega arith) (rw (not_any, computes) (compute-Stores p current x ready some_threads))
      | inr not_compute ↦ elim (Bool-cases (n == 1)) [
        | inl event ↦
            Stores-Places 0 1 (negsuc n) x p _ (ground (arith, event)) (ground (arith, event))
              (omega arith) (rw (not_any, not_compute, event) (post_event-Stores p x))
        | inr neither ↦ (
          (unexpected invalid_thread_type, p),
          rw (not_any, not_compute, neither) refl,
          λ y. ground (arith, not_any, not_compute),
          λ y. ground (arith, not_any, neither),
          λ e. refl,
        )
      ]
    ]
  ]

  -- `PostTask` of a pool with workers and valid local queues never faults. If it reports success, the
  -- task is stored once in the queues of the workers for the token of a worker and for `Compute`, once
  -- in the event loop for the token after those of the workers and for `Async`, and once in each for
  -- any thread. If it reports an error nothing is stored, and every other
  -- configuration gets the error for a wrong token or for a wrong group.
  pub post_task-Places :
      (p : Threadpool tq asio) (current : Option ℕ) (x : ℕ) (c : PostConfig)
      → Ready p.worker_loop.threads
      → 0 < p.thread_nums
      → Places c.config x p (post_task tq asio p current x c)
  unfolding post_task
  post_task-Places p current x c ready some_threads =
      config-Places p current x c.config ready some_threads

  copies_lem :
      (workers : ℕ) (c : ℤ) (r : Result)
      → (to_workers workers c + to_events workers c ≡ 0 → Wrong c r)
      → to_workers workers c * stored r + to_events workers c * stored r ≡ copies c r
  copies_lem workers (pos n) succeeded h = ground (arith, h)
  copies_lem workers (pos n) (unexpected e) h = ground arith
  copies_lem workers (negsuc n) succeeded h = ground (arith, h)
  copies_lem workers (negsuc n) (unexpected e) h = ground arith

  -- The same, for the whole pool.
  pub copies-post_task :
      (p : Threadpool tq asio) (current : Option ℕ) (x : ℕ) (c : PostConfig)
      → Ready p.worker_loop.threads
      → 0 < p.thread_nums
      → (r : Result × Threadpool tq asio) × (post_task tq asio p current x c ≡ some r)
        × ((y : ℕ) → pool_total y r.1 ≡ copies c.config r.0 * one y x + pool_total y p)
  copies-post_task p current x c ready some_threads =
      let (r, run, workers, events, wrong) = post_task-Places p current x c ready some_threads in
      (
        r,
        run,
        λ y. ground (arith, workers y, events y, copies_lem p.thread_nums c.config r.0 wrong),
      )
