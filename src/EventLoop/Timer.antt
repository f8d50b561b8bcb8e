-- ===== src/EventLoop/Timer.antt =====
-- ecs/concurrency/run_loop/event_loop.cpp: `Timer` on a `steady_timer` of asio, of which this is
-- taken: `async_wait` leaves a wait pending; when the timer expires, its handler is queued with no
-- error; `cancel` and `expires_after` queue the handlers of the waits that are pending with
-- `operation_aborted`, and have no effect on a handler that is queued. A task is a number.
use engi_cs.Base.{ℕ, ◌+◌, Option, none, some, List, [], ◌∷◌, ◌++◌, map, ◌==◌, if◌then◌else◌}

-- A handler in the queue of the event loop, with the `m_repeat` of its `TimerCallback`.
pub data Completion : Type 0 where
  expired : ℕ → Completion
  aborted : ℕ → Completion

-- `pending` has the `m_repeat` of each wait; `runs` and `errors` count the calls of the callback and
-- the lines of the log.
pub record Timer : Type 0 where
  pub callback : Option ℕ
  pub pending : List ℕ
  pub queued : List Completion
  pub runs : ℕ
  pub errors : ℕ

abbrev pub cancel : Timer → Timer
cancel t = record t { pending = []; queued = t.queued ++ map aborted t.pending }

-- `expires_after` and `async_wait`.
unfoldable pub wait : ℕ → Timer → Timer
wait repeat t = let c = cancel t in record c { pending = c.pending ++ (repeat ∷ []) }

-- The delay decides only when the timer expires.
unfoldable pub start : (delay repeat : ℕ) → Timer → Timer
unfolding wait
start delay repeat t = wait repeat t

unfoldable pub stop : Timer → Timer
stop t = cancel t

-- `Run`, which asserts that there is a callback.
unfoldable pub run : Timer → Option Timer
run t = elim t.callback [ none ↦ none | some task ↦ some (record t { runs = t.runs + 1 }) ]

-- `TimerCallback::operator()`.
unfoldable pub complete : Completion → Timer → Option Timer
unfolding wait run
complete (aborted repeat) t = some (record t { errors = t.errors + 1 })
complete (expired repeat) t = elim (run t) [
  | none ↦ none
  | some t' ↦ if repeat == 0 then some t' else some (wait repeat t')
]

-- What happens to a timer: a call of `Start` or `Stop`, its expiry, or a turn of the event loop.
pub data Event : Type 0 where
  started : (delay repeat : ℕ) → Event
  stopped : Event
  expires : Event
  turn : Event

abbrev pub expire : Timer → Timer
expire t = record t { pending = []; queued = t.queued ++ map expired t.pending }

abbrev next : List Completion → Timer → Option Timer
next [] t = some t
next (c ∷ cs) t = complete c (record t { queued = cs })

unfoldable pub step : Event → Timer → Option Timer
unfolding start stop complete
step (started delay repeat) t = some (start delay repeat t)
step stopped t = some (stop t)
step expires t = some (expire t)
step turn t = next t.queued t

unfoldable pub steps : List Event → Timer → Option Timer
unfolding step
steps [] t = some t
steps (e ∷ es) t = elim (step e t) [ none ↦ none | some t' ↦ steps es t' ]
