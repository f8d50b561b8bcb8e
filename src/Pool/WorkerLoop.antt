-- ===== src/Pool/WorkerLoop.antt =====
-- ecs/concurrency/run_loop/worker_loop.cpp: `PostTask`, one pass of the loop in `Run`, the wait on
-- the condition variable, and `Shutdown`. A call of a local queue runs without interruption.
pub mod Held
pub mod Conserve
pub mod Find
pub mod Wakeup
use engi_cs.Base.{
  ℕ, zero, suc, ◌+◌, ◌≡◌, Bool, true, false, Option, none, some, List, [], ◌∷◌, get_elem?, set,
  length, ltb, leb, ◌==◌, if◌then◌else◌, not, ◌&&◌, update,
}
use engi_cs.Base.Int.{ℤ}
use engi_cs.ErrorCode.{EcsErrc, queue_full}
use engi_cs.Deque
use engi_cs.Deque.{Wsq}
use engi_cs.Pool.TaskQueue.{TaskQueue}

-- `nx::Error`: `succeeded`, or `Unexpected` with a code.
pub data Result : Type 0 where
  succeeded : Result
  unexpected : EcsErrc → Result

-- A worker in `Run`, with its `spinCount`: in the loop, on its condition variable, or out.
pub data Worker : Type 0 where
  spinning : ℕ → Worker
  waiting : ℕ → Worker
  exited : Worker

abbrev pub max_spin_times : ℕ
max_spin_times = 128

-- The loop in `steal`: the other workers' queues from index `j` on, until one gives a task.
-- `spurious` says which compare-exchanges fail without a cause. `none` is a fault.
abbrev cons_queue : Wsq → Option (ℕ × List Wsq) → Option (ℕ × List Wsq)
cons_queue q none = none
cons_queue q (some (task, qs)) = some (task, q ∷ qs)

unfoldable pub steal_from : List Wsq → ℕ → ℕ → (ℕ → Bool) → Option (ℕ × List Wsq)
steal_from [] j self spurious = some (0, [])
steal_from (q ∷ qs) j self spurious =
    let rest = steal_from qs (suc j) self spurious in
    if j == self then cons_queue q rest else elim (Deque.steal q (spurious j)) [
      | none ↦ none
      | some (task, r) ↦ if task == 0 then cons_queue r rest else some (task, r ∷ qs)
    ]

module _ (tq : TaskQueue) where
  open tq use {Queue, enqueue, try_dequeue, size_approx}

  -- `m_threads`, `m_globalTaskQueue`, `m_shutdown`, and where each worker stands.
  pub record WorkerLoop : Type 0 where
    pub threads : List Wsq
    pub global : Queue
    pub shutdown : Bool
    pub workers : ℕ → Worker

  -- The end of `PostTask`: the queue that all workers share.
  unfoldable pub post_global : WorkerLoop → ℕ → Result × WorkerLoop
  post_global w task = elim (enqueue w.global task) [
    | some g ↦ (succeeded, record w { global = g })
    | none ↦ (unexpected queue_full, w)
  ]

  abbrev post_local : WorkerLoop → ℕ → ℕ → Option (Bool × Wsq) → Option (Result × WorkerLoop)
  post_local w i task none = none
  post_local w i task (some (true, q)) = some (succeeded, record w { threads = set w.threads i q })
  post_local w i task (some (false, q)) =
      some (post_global (record w { threads = set w.threads i q }) task)

  -- `current` is `GetCurrentThreadIndex()`, `none` for its -1: the caller is no worker. The
  -- argument `threadId` is not used. `none` is a fault in the local queue.
  unfoldable pub post_task : WorkerLoop → Option ℕ → ℕ → ℤ → Option (Result × WorkerLoop)
  post_task w none task thread_id = some (post_global w task)
  post_task w (some i) task thread_id = elim (get_elem? w.threads i) [
    | none ↦ some (post_global w task)
    | some q ↦ post_local w i task (Deque.push q task)
  ]

  -- The tests of one pass of `Run`, in order: the worker's own queue, the shared queue, and the
  -- queues of the others. The result is the task to run, 0 if there is none.
  unfoldable pub find_steal : WorkerLoop → ℕ → (ℕ → Bool) → Option (ℕ × WorkerLoop)
  find_steal w i spurious = elim (steal_from w.threads 0 i spurious) [
    | none ↦ none
    | some (task, qs) ↦ some (task, record w { threads = qs })
  ]

  unfoldable pub find_global : WorkerLoop → ℕ → (ℕ → Bool) → Option (ℕ × WorkerLoop)
  find_global w i spurious = elim (try_dequeue w.global) [
    | some (task, g) ↦ some (task, record w { global = g })
    | none ↦ find_steal w i spurious
  ]

  -- After `Consume` on the worker's own queue.
  abbrev pub find_after : WorkerLoop → ℕ → (ℕ → Bool) → Option (ℕ × Wsq) → Option (ℕ × WorkerLoop)
  find_after w i spurious none = none
  find_after w i spurious (some (task, q)) =
      let w' = record w { threads = set w.threads i q } in
      if task == 0 then find_global w' i spurious else some (task, w')

  unfoldable pub find_task : WorkerLoop → ℕ → (ℕ → Bool) → Option (ℕ × WorkerLoop)
  find_task w i spurious = elim (get_elem? w.threads i) [
    | none ↦ none
    | some q ↦ find_after w i spurious (Deque.pop q)
  ]

  -- The predicate of `localCv.wait`.
  unfoldable pub has_work : WorkerLoop → ℕ → Bool
  has_work w i = elim (get_elem? w.threads i) [
    | none ↦ false
    | some q ↦ not (Deque.empty q && size_approx w.global == 0)
  ]

  -- What a pass without a task does: count, and wait once `MaxSpinTimes` is reached.
  unfoldable pub idle_pass : WorkerLoop → ℕ → ℕ → Worker
  idle_pass w i spins =
      if leb max_spin_times (spins + 1)
      then (if has_work w i then spinning (spins + 1) else waiting (spins + 1))
      else spinning (spins + 1)

  -- One pass of `while (!m_shutdown)` of worker `i`, with the task that it runs, 0 if none. A
  -- worker that waits moves only when it is notified.
  abbrev pass_spinning : WorkerLoop → ℕ → (ℕ → Bool) → ℕ → Option (ℕ × WorkerLoop)
  pass_spinning w i spurious spins = elim (find_task w i spurious) [
    | none ↦ none
    | some (task, w') ↦ some (
      task,
      record w' {
        workers = update w'.workers i (if task == 0 then idle_pass w' i spins else spinning 0);
      },
    )
  ]

  abbrev pass_at : WorkerLoop → ℕ → (ℕ → Bool) → Worker → Option (ℕ × WorkerLoop)
  pass_at w i spurious (spinning spins) =
      if w.shutdown
      then some (0, record w { workers = update w.workers i exited })
      else pass_spinning w i spurious spins
  pass_at w i spurious (waiting spins) = some (0, w)
  pass_at w i spurious exited = some (0, w)

  unfoldable pub pass : WorkerLoop → ℕ → (ℕ → Bool) → Option (ℕ × WorkerLoop)
  pass w i spurious = pass_at w i spurious (w.workers i)

  -- `notify_one` on the condition variable of worker `i`: it tests its predicate again.
  abbrev woken : WorkerLoop → ℕ → Worker → Worker
  woken w i (waiting spins) = if has_work w i then spinning spins else waiting spins
  woken w i state = state

  unfoldable pub notify_all : WorkerLoop → WorkerLoop
  notify_all w = record w { workers = λ i. woken w i (w.workers i) }

  unfoldable pub shut_down : WorkerLoop → WorkerLoop
  shut_down w = if w.shutdown then w else notify_all (record w { shutdown = true })
