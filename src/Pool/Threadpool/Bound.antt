-- ===== src/Pool/Threadpool/Bound.antt =====
-- ecs/concurrency/threadpool/threadpool.h: where `BindThreadStartsOnThreadPool` sends a task.
use engi_cs.Base.{
  ℕ, zero, suc, ◌+◌, ◌%◌, ◌^◌, ◌≡◌, ◌<◌, ◌≤◌, refl, true, false, Option, some, arith,
}
use engi_cs.Base.Int.{ℤ, pos, negsuc}
use engi_cs.Pool.TaskQueue.{TaskQueue}
use engi_cs.Pool.Asio.{Asio}
use engi_cs.Pool.WorkerLoop.Held.{Ready}
use engi_cs.Pool.Config.{
  PostConfig, thread, is_any, is_thread_token, is_thread_group, get_thread_token, get_thread_type,
}
use engi_cs.Pool.Threadpool.{Threadpool, get_any_thread_token, post_task, bind_thread}
use engi_cs.Pool.Threadpool.Copies.{Places, post_task-Places}

-- A configuration that names a thread by a token, a group that exists, or any thread.
abbrev pub Known : ℤ → Type 0
Known (pos n) = Unit {0}
Known (negsuc n) = n ≤ 2

module _ (tq : TaskQueue) (asio : Asio) (p : Threadpool tq asio) (current : Option ℕ) (x : ℕ) where
  -- The configuration becomes the token `t`, no queue changes, and the task is then posted with it.
  abbrev pub BoundTo : PostConfig → ℕ → Threadpool tq asio → Type 0
  BoundTo c t q =
      (bind_thread tq asio p c ≡ some (thread (pos t), q))
      × (q.worker_loop ≡ p.worker_loop)
      × (q.event_loop ≡ p.event_loop)
      × (q.thread_nums ≡ p.thread_nums)
      × Places tq asio (pos t) x q (post_task tq asio q current x (thread (pos t)))

  abbrev Binds : PostConfig → Type 0
  Binds c =
      (t : ℕ) × (q : Threadpool tq asio) × BoundTo c t q
      × (is_thread_token c ≡ true → thread (pos t) ≡ c)
      × (is_thread_token c ≡ false → t ≤ p.thread_nums)

  bind_config :
      (z : ℤ)
      → Known z
      → p.ticket < 2 ^ 31
      → Ready p.worker_loop.threads
      → 0 < p.thread_nums
      → Binds (thread z)
  unfolding bind_thread get_any_thread_token is_thread_token is_any is_thread_group get_thread_type
      get_thread_token
  bind_config (pos n) known small ready some_threads = (
    n,
    p,
    (
      refl,
      refl,
      refl,
      refl,
      post_task-Places tq asio p current x (thread (pos n)) ready some_threads,
    ),
    λ e. refl,
    λ e. absurd (ground (arith, e)),
  )
  bind_config (negsuc zero) known small ready some_threads =
      let q = record p { ticket = (p.ticket + 1) % 2 ^ 32 } in
      let t = p.ticket % (p.thread_nums + 1) in
      (
        t,
        q,
        (
          ground arith,
          refl,
          refl,
          refl,
          post_task-Places tq asio q current x (thread (pos t)) ready some_threads,
        ),
        λ e. absurd (ground (arith, e)),
        λ e. omega arith,
      )
  bind_config (negsuc (suc zero)) known small ready some_threads = (
    p.thread_nums,
    p,
    (
      refl,
      refl,
      refl,
      refl,
      post_task-Places tq asio p current x (thread (pos p.thread_nums)) ready some_threads,
    ),
    λ e. absurd (ground (arith, e)),
    λ e. omega arith,
  )
  bind_config (negsuc (suc (suc zero))) known small ready some_threads =
      let q = record p { ticket = (p.ticket + 1) % 2 ^ 32 } in
      let t = p.ticket % p.thread_nums in
      (
        t,
        q,
        (
          ground arith,
          refl,
          refl,
          refl,
          post_task-Places tq asio q current x (thread (pos t)) ready some_threads,
        ),
        λ e. absurd (ground (arith, e)),
        λ e. omega arith,
      )
  bind_config (negsuc (suc (suc (suc n)))) known small ready some_threads = absurd (omega arith)

  -- While the counter of tokens has not reached 2 ^ 31, in a pool with workers and valid local queues,
  -- `BindThreadStartsOnThreadPool` makes of a configuration a token: it keeps one that it is given, and
  -- for any thread or a group that exists it takes one of a worker or of the event loop. The task that
  -- is then posted is stored once if `PostTask` reports success, with the token of a worker in the
  -- queues of the workers and with the one after those in the event loop, and not at all if it reports
  -- an error, which it does for a token above these.
  pub bind_thread_lem :
      (c : PostConfig)
      → Known c.config
      → p.ticket < 2 ^ 31
      → Ready p.worker_loop.threads
      → 0 < p.thread_nums
      → (t : ℕ) × (q : Threadpool tq asio) × BoundTo c t q
        × (is_thread_token c ≡ true → thread (pos t) ≡ c)
        × (is_thread_token c ≡ false → t ≤ p.thread_nums)
  bind_thread_lem c known small ready some_threads =
      bind_config c.config known small ready some_threads
