-- ===== src/Platform/MessageLoop/Schedulers.antt =====
-- ecs/platform/message_loop/message_loop.h: `MessageScheduler`, which calls the handler and the
-- listeners of one type of event.
use engi_cs.Base.{ℕ, Bool, true, Option, none, some, List, [], ◌∷◌, ◌++◌, map}
use engi_cs.Platform.Events.{Msg, EventConverter}

-- The types of events, by their `type_index`, and what a handler makes of an event: its result, and
-- the state that it keeps. A function object is an identity with the state that it has captured.
pub record EventTypes : Type 1 where
  pub Event : ℕ → Type 0
  pub converter : (t : ℕ) → EventConverter (Event t)
  pub handle : (id state t : ℕ) → Event t → Bool × ℕ

pub record Function : Type 0 where
  pub id : ℕ
  pub state : ℕ

pub record Scheduler : Type 0 where
  pub listeners : List Function
  pub handler : Option Function

abbrev pub new_scheduler : Scheduler
new_scheduler = record { listeners = []; handler = none }

unfoldable pub add_listener : Scheduler → Function → Scheduler
add_listener s f = record s { listeners = s.listeners ++ (f ∷ []) }

unfoldable pub set_handler : Scheduler → Function → Scheduler
set_handler s f = record s { handler = some f }

module _ (types : EventTypes) where
  open types use {Event, converter, handle}

  -- A call of a function object on an event of type `t`.
  pub data Call : Type 0 where
    handled : (t : ℕ) → Function → Event t → Call
    listened : (t : ℕ) → Function → Event t → Call

  -- The handler is called in place and keeps its new state.
  unfoldable pub call_handler :
      (t : ℕ) → Event t → Option Function → Bool × Option Function × List Call
  call_handler t event none = (true, none, [])
  call_handler t event (some f) =
      let (ret, state) = handle f.id f.state t event in
      (ret, some (record f { state = state }), handled t f event ∷ [])

  -- `for (auto listener : m_listeners)` calls a copy of each listener, so the listeners stay.
  unfoldable pub schedule_dispatch : (t : ℕ) → Scheduler → Msg → Bool × Scheduler × List Call
  unfolding call_handler
  schedule_dispatch t s raw =
      let event = EventConverter.from_native (converter t) raw in
      let (ret, handler, calls) = call_handler t event s.handler in
      (ret, record s { handler = handler }, calls ++ map (λ f. listened t f event) s.listeners)
