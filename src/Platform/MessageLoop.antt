-- ===== src/Platform/MessageLoop.antt =====
-- ecs/platform/message_loop/message_loop.h and message_loop.cpp: `MessageLoopBase` and
-- `BaseMessageLoop`, the registration of listeners and the dispatch of a message to them.
pub mod Containers
pub mod Schedulers
pub mod FunctionMaps
pub mod Invariant
pub mod Dispatch
pub mod Delivery
pub mod History
pub mod Calls
pub mod Window
pub mod Posted
pub mod Tasks
pub mod Run
mod Tests
use engi_cs.Base.{ℕ, Bool, true, ◌&&◌, Option, none, some, List, [], ◌∷◌, ◌++◌}
use engi_cs.Platform.Events.{Msg, EventConverter}
use Containers.{Maps}
use Schedulers.{
  EventTypes, Function, Scheduler, new_scheduler, add_listener, set_handler, Call,
  schedule_dispatch,
}

module _ (types : EventTypes) (maps : Maps Scheduler) where
  open types use {converter}
  open maps use {Storage, no_values, find, emplace, assign, Index, no_entries, equal_range, insert}

  -- `MessageLoopBase::Impl` without the queue of tasks
  pub record Loop : Type 0 where
    pub storage : Storage
    pub index : Index

  abbrev pub new_loop : Loop
  new_loop = record { storage = no_values; index = no_entries }

  unfoldable pub get_scheduler : Loop → ℕ → Option Scheduler
  get_scheduler l t = find l.storage t

  unfoldable pub index_each : Index → ℕ → List ℕ → Index
  index_each i t [] = i
  index_each i t (m ∷ ms) = index_each (insert i m t) t ms

  unfoldable pub add_scheduler : Loop → ℕ → List ℕ → Scheduler → Loop
  add_scheduler l t messages s = record {
    storage = emplace l.storage t s;
    index = index_each l.index t messages;
  }

  -- `Converter::nativeMsg()`
  unfoldable pub native_msg : ℕ → List ℕ
  native_msg t = EventConverter.native_msg (converter t)

  -- The loop, and the scheduler that the pointer of the result points to.
  unfoldable pub get_or_create_scheduler : Loop → ℕ → Loop × Scheduler
  unfolding get_scheduler add_scheduler
  get_or_create_scheduler l t = elim (get_scheduler l t) [
    | some s ↦ (l, s)
    | none ↦ (add_scheduler l t (native_msg t) new_scheduler, new_scheduler)
  ]

  unfoldable pub on : Loop → ℕ → Function → Loop
  unfolding get_or_create_scheduler add_listener
  on l t f =
      let (l', s) = get_or_create_scheduler l t in
      record l' { storage = assign l'.storage t (add_listener s f) }

  unfoldable pub handle_by : Loop → ℕ → Function → Loop
  unfolding get_or_create_scheduler set_handler
  handle_by l t f =
      let (l', s) = get_or_create_scheduler l t in
      record l' { storage = assign l'.storage t (set_handler s f) }

  -- The loop of `dispatch` over the entries of a message. A type with no scheduler is a call through
  -- a null pointer.
  unfoldable pub dispatch_each :
      List ℕ → Loop → Msg → Bool → Option (Bool × Loop × List (Call types))
  unfolding schedule_dispatch
  dispatch_each [] l raw ret = some (ret, l, [])
  dispatch_each (t ∷ ts) l raw ret = elim (find l.storage t) [
    | none ↦ none
    | some s ↦
        let (r, s', calls) = schedule_dispatch types t s raw in
        let l' : Loop = record l { storage = assign l.storage t s' } in
        elim (dispatch_each ts l' raw (r && ret)) [
          | none ↦ none
          | some (ret', l'', more) ↦ some (ret', l'', calls ++ more)
        ]
  ]

  unfoldable pub dispatch : Loop → Msg → ℕ → Option (Bool × Loop × List (Call types))
  unfolding dispatch_each
  dispatch l raw msg = dispatch_each (equal_range l.index msg) l raw true

  -- What the thread of the loop does: it registers a listener or a handler for a type of event, or
  -- its window receives a message.
  pub data Action : Type 0 where
    listen : ℕ → Function → Action
    handle : ℕ → Function → Action
    receive : Msg → ℕ → Action

  unfoldable pub act : Loop → Action → Option (Loop × List (Call types))
  act l (listen t f) = some (on l t f, [])
  act l (handle t f) = some (handle_by l t f, [])
  act l (receive raw msg) = elim (dispatch l raw msg) [
    | none ↦ none
    | some (ret, l', calls) ↦ some (l', calls)
  ]

  unfoldable pub run : Loop → List Action → Option (Loop × List (Call types))
  run l [] = some (l, [])
  run l (a ∷ as') = elim (act l a) [
    | none ↦ none
    | some (l', calls) ↦ elim (run l' as') [
      | none ↦ none
      | some (l'', more) ↦ some (l'', calls ++ more)
    ]
  ]
