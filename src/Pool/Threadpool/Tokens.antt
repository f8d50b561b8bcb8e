-- ===== src/Pool/Threadpool/Tokens.antt =====
-- The thread tokens that `GetAnyThreadToken` hands out, what `PostConfig` makes of them, and the
-- signals of an operation that posts.
use native.Mathlib.Nat.{mod-add-mod}
use engi_cs.Base.{
  ℕ, zero, suc, ap, sym, ◌+◌, ◌-◌, ◌*◌, ◌%◌, ◌^◌, ◌≡◌, ◌≢◌, ◌<◌, ◌≤◌, ◌⊎◌, inl, inr, refl, true,
  false, Option, none, some, List, [], ◌∷◌, arith,
}
use engi_cs.Base.Int.{ℤ, pos, negsuc, neg}
use engi_cs.ErrorCode.{EcsErrc}
use engi_cs.Pool.TaskQueue.{TaskQueue}
use engi_cs.Pool.Asio.{Asio}
use engi_cs.Pool.WorkerLoop.{Result, succeeded, unexpected}
use engi_cs.Pool.WorkerLoop.Held.{Ready, one}
use engi_cs.Pool.Config.{
  compute, any, PostConfig, thread, is_any, is_thread_token, is_thread_group, get_thread_token,
  get_thread_type,
}
use engi_cs.Pool.Threadpool.{Signal, set_error, Threadpool, get_any_thread_token, started, start}
use engi_cs.Pool.Threadpool.Copies.{copies, pool_total, copies-post_task}

-- A configuration is for a thread, for a group or for any thread, and only one of these.
-- `get_thread_token` gives back the value unless it is a group, and `get_thread_type` unless it is
-- a thread: both accept `AnyThread`.
pub config_kinds :
    (c : PostConfig)
    → ((is_thread_token c ≡ true)
        × (is_thread_group c ≡ false)
        × (is_any c ≡ false)
        × (get_thread_token c ≡ some c.config)
        × (get_thread_type c ≡ none))
      ⊎ ((is_thread_token c ≡ false)
          × (is_thread_group c ≡ true)
          × (is_any c ≡ false)
          × (get_thread_token c ≡ none)
          × (get_thread_type c ≡ some c.config))
      ⊎ ((is_thread_token c ≡ false)
          × (is_thread_group c ≡ false)
          × (is_any c ≡ true)
          × (get_thread_token c ≡ some (negsuc 0))
          × (get_thread_type c ≡ some (negsuc 0)))
unfolding is_thread_token is_thread_group is_any get_thread_token get_thread_type
config_kinds c = ground arith

neg_lem : (n : ℕ) → n ≢ 0 → neg n ≡ negsuc (n - 1)
neg_lem zero h = absurd (h refl)
neg_lem (suc n) h = ap negsuc (omega arith)

module _ (tq : TaskQueue) (asio : Asio) (p : Threadpool tq asio) where
  -- While the counter has not reached 2 ^ 31, a token for any thread names a worker or the event
  -- thread, a token for computing names a worker, and two calls in a row give neighbours in the
  -- cyclic order of the threads.
  pub tokens_in_turn :
      p.ticket + 1 < 2 ^ 31
      → 0 < p.thread_nums
      → (a b c : ℕ) × (q r : Threadpool tq asio) × (get_any_thread_token tq asio p any
          ≡ some (pos a, q))
        × (get_any_thread_token tq asio q any ≡ some (pos b, r))
        × (get_any_thread_token tq asio p compute ≡ some (pos c, q))
        × (a ≤ p.thread_nums)
        × (b ≡ (a + 1) % (p.thread_nums + 1))
        × (c < p.thread_nums)
  unfolding get_any_thread_token
  tokens_in_turn small some_threads = (
    p.ticket % (p.thread_nums + 1),
    (p.ticket + 1) % (p.thread_nums + 1),
    p.ticket % p.thread_nums,
    record p { ticket = p.ticket + 1 },
    record p { ticket = p.ticket + 2 },
    ground arith,
    ground arith,
    ground arith,
    omega arith,
    sym (mod-add-mod p.ticket (p.thread_nums + 1) 1),
    omega arith,
  )

  -- Once the counter has passed 2 ^ 31 - 1 the remainder is that of a negative number: unless it
  -- is 0 the token is negative, so that `PostConfig::thread` of it names no thread.
  pub tokens_after_wrap :
      2 ^ 31 ≤ p.ticket
      → p.ticket < 2 ^ 32
      → (2 ^ 32 - p.ticket) % (p.thread_nums + 1) ≢ 0
      → (n : ℕ) × (q : Threadpool tq asio) × (get_any_thread_token tq asio p any
          ≡ some (negsuc n, q))
        × (is_thread_token (thread (negsuc n)) ≡ false)
  unfolding get_any_thread_token is_thread_token
  tokens_after_wrap big fits h = (
    (2 ^ 32 - p.ticket) % (p.thread_nums + 1) - 1,
    record p { ticket = (p.ticket + 1) % 2 ^ 32 },
    ground (arith, neg_lem ((2 ^ 32 - p.ticket) % (p.thread_nums + 1)) h),
    refl,
  )

  copies_pos : (c : ℤ) → 0 < copies c succeeded
  copies_pos (pos n) = omega arith
  copies_pos (negsuc n) = ground arith

  copies_zero : (c : ℤ) (e : EcsErrc) → copies c (unexpected e) ≡ 0
  copies_zero (pos n) e = refl
  copies_zero (negsuc n) e = ground arith

  -- What `start` makes of the result of `PostTask`.
  Signalled : ℕ → List Signal × Threadpool tq asio → Type 0
  Signalled x (signals, q) =
      (signals ≡ set_error ∷ []) × (pool_total tq asio x p < pool_total tq asio x q)
      ⊎ (signals ≡ []) × (pool_total tq asio x q ≡ pool_total tq asio x p)

  started-Signalled :
      (x : ℕ) (c : ℤ) (r : Result × Threadpool tq asio)
      → pool_total tq asio x r.1 ≡ copies c r.0 * one x x + pool_total tq asio x p
      → Signalled x (started tq asio r)
  unfolding Signalled
  started-Signalled x c (succeeded, q) h = inl (refl, grind (arith, copies_pos c))
  started-Signalled x c (unexpected e, q) h = inr (refl, grind (arith, copies_zero c e))

  -- `start` of an operation whose stop was not requested tells its receiver `set_error` exactly if
  -- its task was accepted; the task will tell it `set_value` as well. Where the task was refused
  -- the receiver is told nothing, and no task is there to do so.
  pub start_signals :
      (current : Option ℕ) (x : ℕ) (c : PostConfig)
      → Ready p.worker_loop.threads
      → 0 < p.thread_nums
      → (signals : List Signal) × (q : Threadpool tq asio) × (start tq asio p false current x c
          ≡ some (signals, q))
        × ((signals ≡ set_error ∷ []) × (pool_total tq asio x p < pool_total tq asio x q)
            ⊎ (signals ≡ []) × (pool_total tq asio x q ≡ pool_total tq asio x p))
  unfolding start Signalled
  start_signals current x c ready some_threads =
      let (r, run, same) = copies-post_task tq asio p current x c ready some_threads in
      let s = started tq asio r in (s.0, s.1, rw run refl, started-Signalled x c.config r (same x))
