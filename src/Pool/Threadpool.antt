-- ===== src/Pool/Threadpool.antt =====
-- ecs/concurrency/threadpool/threadpool.cpp, and `start` of the operation state in threadpool.h.
pub mod Copies
pub mod Tokens
pub mod Bound
use engi_cs.Base.{
  ℕ, ◌+◌, ◌-◌, ◌%◌, ◌^◌, ◌≡◌, Bool, true, false, Option, none, some, List, [], ◌∷◌, ltb, ◌==◌,
  if◌then◌else◌,
}
use engi_cs.Base.Int.{ℤ, pos, negsuc, neg, rem32}
use engi_cs.ErrorCode.{invalid_thread_token, invalid_thread_type}
use engi_cs.Pool.TaskQueue.{TaskQueue}
use engi_cs.Pool.Asio.{Asio}
use engi_cs.Pool.WorkerLoop
use engi_cs.Pool.WorkerLoop.{Result, succeeded, unexpected, WorkerLoop}
use engi_cs.Pool.Config.{
  ThreadType, unknown, async, compute, PostConfig, is_any, is_thread_token, is_thread_group, thread,
  get_thread_type, get_thread_token,
}

-- What a receiver is told.
pub data Signal : Type 0 where
  set_value set_error set_stopped : Signal

module _ (tq : TaskQueue) (asio : Asio) where
  open asio use {Context, post}

  -- `ticket` is the static counter of `GetAnyThreadToken`, a 32-bit pattern.
  pub record Threadpool : Type 0 where
    pub worker_loop : WorkerLoop tq
    pub event_loop : Context
    pub thread_nums : ℕ
    pub ticket : ℕ

  -- `GetAnyThreadToken`; `none` is a remainder by 0. The value of `m_threadNums` is an `int`.
  unfoldable pub get_any_thread_token : Threadpool → ThreadType → Option (ℤ × Threadpool)
  get_any_thread_token p unknown =
      some (rem32 p.ticket (p.thread_nums + 1), record p { ticket = (p.ticket + 1) % 2 ^ 32 })
  get_any_thread_token p compute =
      if p.thread_nums == 0
      then none
      else some (rem32 p.ticket p.thread_nums, record p { ticket = (p.ticket + 1) % 2 ^ 32 })
  get_any_thread_token p async = some (pos p.thread_nums, p)

  -- `m_workerLoop.PostTask`, put back into the pool.
  abbrev pub post_worker : Threadpool → Option ℕ → ℕ → ℤ → Option (Result × Threadpool)
  post_worker p current task token =
      elim (WorkerLoop.post_task tq p.worker_loop current task token) [
        | none ↦ none
        | some (result, w) ↦ some (result, record p { worker_loop = w })
      ]

  -- `m_es.PostTask`, which always succeeds.
  abbrev pub post_event : Threadpool → ℕ → Result × Threadpool
  post_event p task = (succeeded, record p { event_loop = post p.event_loop task })

  abbrev and_event : ℕ → Option (Result × Threadpool) → Option (Result × Threadpool)
  and_event task none = none
  and_event task (some (succeeded, p)) = some (post_event p task)
  and_event task (some (unexpected e, p)) = some (unexpected e, p)

  abbrev post_token : Threadpool → Option ℕ → ℕ → ℕ → Option (Result × Threadpool)
  post_token p current task token =
      if ltb token p.thread_nums
      then post_worker p current task (pos token)
      else if token == p.thread_nums
      then some (post_event p task)
      else some (unexpected invalid_thread_token, p)

  abbrev post_compute : Option ℕ → ℕ → Option (ℤ × Threadpool) → Option (Result × Threadpool)
  post_compute current task none = none
  post_compute current task (some (token, p)) = post_worker p current task token

  -- The branches on `m_config`: a token, -1, the value of `Async`, that of `Compute`, and others.
  abbrev post_config : Threadpool → Option ℕ → ℕ → ℤ → Option (Result × Threadpool)
  post_config p current task (pos token) = post_token p current task token
  post_config p current task (negsuc n) =
      if n == 0
      then and_event task (post_worker p current task (negsuc 0))
      else if n == 2
      then post_compute current task (get_any_thread_token p compute)
      else if n == 1
      then some (post_event p task)
      else some (unexpected invalid_thread_type, p)

  -- `PostTask(Task*, PostConfig)`, called by worker `current` or by another thread. `none` is a
  -- fault.
  unfoldable pub post_task : Threadpool → Option ℕ → ℕ → PostConfig → Option (Result × Threadpool)
  post_task p current task c = post_config p current task c.config

  -- `ThreadpoolOperationState::start`: the signals that it sends itself. The task that it posts
  -- sends `set_value`. A result that is a success counts as true.
  abbrev started : Result × Threadpool → List Signal × Threadpool
  started (succeeded, p) = (set_error ∷ [], p)
  started (unexpected e, p) = ([], p)

  unfoldable pub start :
      Threadpool → Bool → Option ℕ → ℕ → PostConfig → Option (List Signal × Threadpool)
  start p stop_requested current task c =
      if stop_requested
      then some (set_stopped ∷ [], p)
      else elim (post_task p current task c) [ none ↦ none | some r ↦ some (started r) ]

  -- `GetAnyThreadToken` of a value, which may be that of no enumerator.
  abbrev token_of_value : Threadpool → ℤ → Option (ℤ × Threadpool)
  token_of_value p (pos n) = some (negsuc 0, p)
  token_of_value p (negsuc n) =
      if n == 0
      then get_any_thread_token p unknown
      else if n == 1
      then get_any_thread_token p async
      else if n == 2
      then get_any_thread_token p compute
      else some (negsuc 0, p)

  abbrev bound : Option (ℤ × Threadpool) → Option (PostConfig × Threadpool)
  bound none = none
  bound (some (token, p)) = some (thread token, p)

  abbrev bound_group : Threadpool → Option ℤ → Option (PostConfig × Threadpool)
  bound_group p none = none
  bound_group p (some type) = bound (token_of_value p type)

  abbrev bound_token : Threadpool → Option ℤ → Option (PostConfig × Threadpool)
  bound_token p none = none
  bound_token p (some token) = some (thread token, p)

  -- The configuration with which `BindThreadStartsOnThreadPool` starts its sender. `none` is a
  -- fault, also that of `value` of no value.
  unfoldable pub bind_thread : Threadpool → PostConfig → Option (PostConfig × Threadpool)
  unfolding is_any is_thread_group get_thread_type get_thread_token
  bind_thread p c =
      if is_any c
      then bound (get_any_thread_token p unknown)
      else if is_thread_group c
      then bound_group p (get_thread_type c)
      else bound_token p (get_thread_token c)
