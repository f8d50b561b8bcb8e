-- ===== src/Platform/MessageLoop/Calls.antt =====
-- ecs/platform/message_loop/message_loop.h and message_loop.cpp: who hears of a message.
use engi_cs.Base.{
  ℕ, ◌≡◌, refl, sym, ap, ◌∙◌, inl, inr, Bool, Option, none, some, List, [], ◌∷◌, ◌++◌, append-nil,
  map, count, Option-cases,
}
use engi_cs.Platform.Events.{Msg, EventConverter}
use engi_cs.Platform.MessageLoop.Containers.{Maps}
use engi_cs.Platform.MessageLoop.Schedulers.{
  EventTypes, Function, Scheduler, Call, handled, listened, call_handler, schedule_dispatch,
}
use engi_cs.Platform.MessageLoop.{Loop, Action, new_loop, native_msg, dispatch, run}
use engi_cs.Platform.MessageLoop.Dispatch.{calls_of, times}
use engi_cs.Platform.MessageLoop.Delivery.{Delivered, dispatch_lem}
use engi_cs.Platform.MessageLoop.History.{listeners, listeners_of, run_remembers}

module _ (types : EventTypes) where
  -- The calls of listeners among some calls.
  unfoldable pub heard : List (Call types) → List (Call types)
  heard [] = []
  heard (handled t f e ∷ cs) = heard cs
  heard (listened t f e ∷ cs) = listened t f e ∷ heard cs

  heard-map :
      (t : ℕ) (e : EventTypes.Event types t) (fs : List Function)
      → heard (map (λ f. listened t f e) fs) ≡ map (λ f. listened t f e) fs
  unfolding heard
  heard-map t e [] = refl
  heard-map t e (f ∷ fs) = ap (λ l. listened t f e ∷ l) (heard-map t e fs)

  heard-append : (cs ds : List (Call types)) → heard (cs ++ ds) ≡ heard cs ++ heard ds
  unfolding heard
  heard-append [] ds = refl
  heard-append (handled t f e ∷ cs) ds = heard-append cs ds
  heard-append (listened t f e ∷ cs) ds = ap (λ l. listened t f e ∷ l) (heard-append cs ds)

  heard-handler :
      (t : ℕ) (e : EventTypes.Event types t) (o : Option Function)
      → heard (call_handler types t e o).2 ≡ []
  unfolding heard call_handler
  heard-handler t e none = refl
  heard-handler t e (some f) = refl

  heard-schedule_dispatch :
      (t : ℕ) (s : Scheduler) (raw : Msg)
      → heard (schedule_dispatch types t s raw).2
        ≡ map
            (λ f. listened t f (EventConverter.from_native (EventTypes.converter types t) raw))
            s.listeners
  unfolding schedule_dispatch
  heard-schedule_dispatch t s raw =
      let e = EventConverter.from_native (EventTypes.converter types t) raw in
      heard-append (call_handler types t e s.handler).2 (map (λ f. listened t f e) s.listeners)
      ∙ ap (λ l. l ++ heard (map (λ f. listened t f e) s.listeners)) (heard-handler t e s.handler)
      ∙ heard-map t e s.listeners

  heard_once :
      (t : ℕ) (s : Scheduler) (raw : Msg)
      → heard (times types 1 t s raw).2
        ≡ map
            (λ f. listened t f (EventConverter.from_native (EventTypes.converter types t) raw))
            s.listeners
  unfolding times
  heard_once t s raw =
      ap heard (append-nil (schedule_dispatch types t s raw).2) ∙ heard-schedule_dispatch t s raw

  not_heard : (t : ℕ) (s : Scheduler) (raw : Msg) → heard (times types 0 t s raw).2 ≡ []
  unfolding times heard
  not_heard t s raw = refl

module _ (types : EventTypes) (maps : Maps Scheduler) where
  open maps use {find}

  -- After a history the listeners of type `t` that a dispatch calls, in order.
  abbrev pub Hears : List (Action types maps) → Msg → ℕ → ℕ → List (Call types) → Type 0
  Hears as' raw msg t expected =
      (before : Loop types maps × List (Call types)) × (after : Bool
        × Loop types maps
        × List (Call types))
      × (run types maps (new_loop types maps) as' ≡ some before)
      × (dispatch types maps before.0 raw msg ≡ some after)
      × (heard types (calls_of types t after.2) ≡ expected)

  -- The listeners of a type among the calls, by how often its converter names the message.
  heard_by :
      (l : Loop types maps) (raw : Msg) (msg t : ℕ) (fs : List Function)
      → listeners (find l.storage t) ≡ fs
      → (after : Bool × Loop types maps × List (Call types)) → Delivered types maps l raw msg after
      → (count msg (native_msg types maps t) ≡ 1
          → heard types (calls_of types t after.2)
            ≡ map
                (λ f. listened t f (EventConverter.from_native (EventTypes.converter types t) raw))
                fs)
        × (count msg (native_msg types maps t) ≡ 0 → heard types (calls_of types t after.2) ≡ [])
  unfolding heard
  heard_by l raw msg t fs known (ret, l', calls) (same_index, nothing, something, iff) =
      elim (Option-cases (find l.storage t)) [
        | inl e ↦
            let none_known : fs ≡ [] = sym known ∙ ap listeners e in
            let quiet : heard types (calls_of types t calls) ≡ [] =
              ap (heard types) (nothing t e).1 in
            (λ once. rw none_known quiet, λ never. quiet)
        | inr (s, e) ↦
            let some_known : fs ≡ s.listeners = sym known ∙ ap listeners e in
            let called = ap (heard types) (something t s e).1 in
            (
              λ once.
                  called
                  ∙ ap (λ n. heard types (times types n t s raw).2) once
                  ∙ rw some_known (heard_once types t s raw),
              λ never.
                  called
                  ∙ ap (λ n. heard types (times types n t s raw).2) never
                  ∙ not_heard types t s raw,
            )
      ]

  -- After any history, a message that the converter of a type of event names once is heard by every
  -- listener that was added for the type, once each and in the order of their addition, with the
  -- event that the converter reads from the message, whatever any handler returns.
  pub listeners_called :
      (as' : List (Action types maps)) (raw : Msg) (msg t : ℕ)
      → count msg (native_msg types maps t) ≡ 1
      → Hears as' raw msg t (
          map
            (λ f. listened t f (EventConverter.from_native (EventTypes.converter types t) raw))
            (listeners_of types maps t as'))
  listeners_called as' raw msg t once =
      let (before, ran, indexed, known) = run_remembers types maps as' in
      let (after, eq, delivered) = dispatch_lem types maps before.0 raw msg indexed in
      let lists = listeners_of types maps t as' in
      (
        before,
        after,
        ran,
        eq,
        (heard_by before.0 raw msg t lists (known t).0 after delivered).0 once,
      )

  -- After any history, a message that the converter of a type of event does not name is heard by no
  -- listener of the type, whatever the history added.
  pub listeners_spared :
      (as' : List (Action types maps)) (raw : Msg) (msg t : ℕ)
      → count msg (native_msg types maps t) ≡ 0
      → Hears as' raw msg t []
  listeners_spared as' raw msg t never =
      let (before, ran, indexed, known) = run_remembers types maps as' in
      let (after, eq, delivered) = dispatch_lem types maps before.0 raw msg indexed in
      let lists = listeners_of types maps t as' in
      (
        before,
        after,
        ran,
        eq,
        (heard_by before.0 raw msg t lists (known t).0 after delivered).1 never,
      )
