-- ===== src/Signal/Threads.antt =====
-- ecs/core/utils/single.h: `Add` and `Remove` cut at their accesses of the shared members, as steps
-- of any number of threads. `spurious` is a failure of `compare_exchange_weak` with no cause.
-- `after_move` is what `std::move` leaves in a callback, which the library does not specify.
use engi_cs.Base.{
  ℕ, Bool, true, false, List, [], ◌∷◌, ◌++◌, ◌==◌, if◌then◌else◌, not, ◌&&◌, add64, update,
}
use engi_cs.Signal.{Elements, Signal, has, without, store, clear}

-- Where a thread stands. `added` and `removed` hold what the call returned.
pub data Caller : Type 0 where
  idle : Caller
  add_started : (cb : ℕ) → Caller
  add_named : (id cb : ℕ) → Caller
  add_loaded : (id cb version : ℕ) → (old : Elements) → Caller
  added : (id : ℕ) → Caller
  remove_started : (token : ℕ) → Caller
  remove_loaded : (token version : ℕ) → (old : Elements) → Caller
  removed : Bool → Caller

-- A thread begins a call only when the one before has returned.
abbrev pub ready : Caller → Bool
ready idle = true
ready (added id) = true
ready (removed b) = true
ready _ = false

-- What a step does to the list of callbacks.
pub data Effect : Type 0 where
  quiet : Effect
  appended : (id cb : ℕ) → Effect
  erased : (token : ℕ) → Effect
  cleared : Effect

module _ (after_move : ℕ → ℕ) where
  unfoldable pub step : Signal → Bool → Caller → Effect × Signal × Caller
  step s spurious idle = (quiet, s, idle)
  step s spurious (add_started cb) =
      (quiet, record s { next_id = add64 s.next_id 1 }, add_named s.next_id cb)
  step s spurious (add_named id cb) = (quiet, s, add_loaded id cb s.version s.callbacks)
  step s spurious (add_loaded id cb version old) =
      if not spurious && s.version == version
      then (appended id cb, store s (old ++ ((id, cb) ∷ [])), added id)
      else (quiet, s, add_named id (after_move cb))
  step s spurious (added id) = (quiet, s, added id)
  step s spurious (remove_started token) =
      if token == 0
      then (quiet, s, removed false)
      else if has token s.callbacks
      then (quiet, s, remove_loaded token s.version s.callbacks)
      else (quiet, s, removed false)
  step s spurious (remove_loaded token version old) =
      if not spurious && s.version == version
      then (erased token, store s (without token old), removed true)
      else (quiet, s, remove_started token)
  step s spurious (removed b) = (quiet, s, removed b)

  pub record System : Type 0 where
    pub signal : Signal
    pub callers : ℕ → Caller

  -- Thread `i` makes its next access, begins a call, or clears the signal.
  pub data Event : Type 0 where
    moves : (i : ℕ) → (spurious : Bool) → Event
    adds : (i cb : ℕ) → Event
    removes : (i token : ℕ) → Event
    clears : Event

  abbrev moved : System → ℕ → Effect × Signal × Caller → Effect × System
  moved s i (e, sig, c) = (e, record { signal = sig; callers = update s.callers i c })

  unfoldable pub exec : System → Event → Effect × System
  exec s (moves i spurious) = moved s i (step s.signal spurious (s.callers i))
  exec s (adds i cb) = (
    quiet,
    record s {
      callers = update s.callers i (if ready (s.callers i) then add_started cb else s.callers i);
    },
  )
  exec s (removes i token) = (
    quiet,
    record s {
      callers =
          update s.callers i (if ready (s.callers i) then remove_started token else s.callers i);
    },
  )
  exec s clears = (cleared, record s { signal = clear s.signal })

  unfoldable pub run : System → List Event → List Effect × System
  run s [] = ([], s)
  run s (e ∷ es) = let (f, s') = exec s e in let (fs, s'') = run s' es in (f ∷ fs, s'')

  -- A caller that makes accesses while no other thread does; the flags are the failures.
  unfoldable pub alone : Signal → Caller → List Bool → Signal × Caller
  alone s c [] = (s, c)
  alone s c (spurious ∷ flags) = let (f, s', c') = step s spurious c in alone s' c' flags
