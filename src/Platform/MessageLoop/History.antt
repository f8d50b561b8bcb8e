-- ===== src/Platform/MessageLoop/History.antt =====
-- ecs/platform/message_loop/message_loop.h: what a loop knows of a type of event after a history of
-- registrations and messages.
use mathlib.Core.Path.{subst}
use engi_cs.Base.{
  ℕ, zero, suc, ◌≡◌, refl, sym, ap, ◌∙◌, Bool, Option, none, some, List, [], ◌∷◌, ◌++◌, append-nil,
  append_assoc, ◌==◌, count, if◌then◌else◌, Option-cases, Bool-cases, ==_iff, inl, inr, arith,
}
use engi_cs.Platform.Events.{Msg, EventConverter}
use engi_cs.Platform.MessageLoop.Containers.{Maps}
use engi_cs.Platform.MessageLoop.Schedulers.{
  EventTypes, Function, Scheduler, Call, add_listener, set_handler, call_handler, schedule_dispatch,
}
use engi_cs.Platform.MessageLoop.{
  Loop, new_loop, Action, listen, handle, receive, on, handle_by, native_msg, act, run,
}
use engi_cs.Platform.MessageLoop.Invariant.{
  or_new, IsIndexed, Sets, new_loop-IsIndexed, on_lem, handle_by_lem,
}
use engi_cs.Platform.MessageLoop.Dispatch.{times}
use engi_cs.Platform.MessageLoop.Delivery.{Delivered, dispatch_lem, Delivered-IsIndexed}

-- What a scheduler, or its absence, says: the listeners, and the identity of the handler.
abbrev pub listeners : Option Scheduler → List Function
listeners none = []
listeners (some s) = s.listeners

abbrev identity : Option Function → Option ℕ
identity none = none
identity (some f) = some f.id

abbrev pub handler : Option Scheduler → Option ℕ
handler none = none
handler (some s) = identity s.handler

module _ (types : EventTypes) (maps : Maps Scheduler) where
  open maps use {find, find-no_values}

  -- The listeners that a history gives to a type, in order.
  unfoldable pub listeners_of : ℕ → List (Action types maps) → List Function
  listeners_of t [] = []
  listeners_of t (listen u f ∷ as') =
      let rest = listeners_of t as' in if u == t then f ∷ rest else rest
  listeners_of t (handle u f ∷ as') = listeners_of t as'
  listeners_of t (receive raw msg ∷ as') = listeners_of t as'

  -- The last handler that a history gives to a type, or an earlier one.
  unfoldable pub handler_of : ℕ → List (Action types maps) → Option ℕ → Option ℕ
  handler_of t [] o = o
  handler_of t (listen u f ∷ as') o = handler_of t as' o
  handler_of t (handle u f ∷ as') o = handler_of t as' (if u == t then some f.id else o)
  handler_of t (receive raw msg ∷ as') o = handler_of t as' o

  schedule_dispatch_keeps :
      (t : ℕ) (s : Scheduler) (raw : Msg)
      → let s' = (schedule_dispatch types t s raw).1 in
        (s'.listeners ≡ s.listeners) × (identity s'.handler ≡ identity s.handler)
  unfolding schedule_dispatch
  schedule_dispatch_keeps t s raw = (refl, handler_keeps s.handler)
    where
      handler_keeps :
          (o : Option Function)
          → identity
              (call_handler types t
                (EventConverter.from_native (EventTypes.converter types t) raw)
                o).1
            ≡ identity o
      handler_keeps none = refl
      handler_keeps (some f) = refl

  times_keeps :
      (n t : ℕ) (s : Scheduler) (raw : Msg)
      → let s' = (times types n t s raw).1 in
        (s'.listeners ≡ s.listeners) × (identity s'.handler ≡ identity s.handler)
  unfolding times
  times_keeps zero t s raw = (refl, refl)
  times_keeps (suc n) t s raw =
      let first = schedule_dispatch_keeps t s raw in
      let rest = times_keeps n t (schedule_dispatch types t s raw).1 raw in
      (rest.0 ∙ first.0, rest.1 ∙ first.1)

  -- A loop `l'` knows of each type what `l` knew and what the history adds.
  abbrev pub Remembers : Loop types maps → List (Action types maps) → Loop types maps → Type 0
  Remembers l as' l' =
      (t : ℕ)
      → (listeners (find l'.storage t) ≡ listeners (find l.storage t) ++ listeners_of t as')
        × (handler (find l'.storage t) ≡ handler_of t as' (handler (find l.storage t)))

  or_new_listeners : (o : Option Scheduler) → (or_new o).listeners ≡ listeners o
  or_new_listeners none = refl
  or_new_listeners (some s) = refl

  or_new_handler : (o : Option Scheduler) → identity (or_new o).handler ≡ handler o
  or_new_handler none = refl
  or_new_handler (some s) = refl

  listen-Remembers :
      (l l' : Loop types maps) (u : ℕ) (f : Function)
      → Sets types maps l u (add_listener (or_new (find l.storage u)) f) l'
      → Remembers l (listen u f ∷ []) l'
  unfolding listeners_of handler_of add_listener
  listen-Remembers l l' u f sets t = elim (Bool-cases (u == t)) [
    | inl p ↦ rw p (
        subst
          (λ v.
            (listeners (find l'.storage v) ≡ listeners (find l.storage v) ++ (f ∷ []))
            × (handler (find l'.storage v) ≡ handler (find l.storage v)))
          ((==_iff u t).0 p)
          (let e : find l'.storage u ≡ some (add_listener (or_new (find l.storage u)) f) =
              ground (arith, sets u, (==_iff u u).1 refl) in
            rw e (
              ap (λ fs. fs ++ (f ∷ [])) (or_new_listeners (find l.storage u)),
              or_new_handler (find l.storage u),
            )))
    | inr p ↦ rw p (
        let e : find l'.storage t ≡ find l.storage t = ground (arith, sets t) in
        rw e (sym (append-nil (listeners (find l.storage t))), refl))
  ]

  handle-Remembers :
      (l l' : Loop types maps) (u : ℕ) (f : Function)
      → Sets types maps l u (set_handler (or_new (find l.storage u)) f) l'
      → Remembers l (handle u f ∷ []) l'
  unfolding listeners_of handler_of set_handler
  handle-Remembers l l' u f sets t = elim (Bool-cases (u == t)) [
    | inl p ↦ rw p (
        subst
          (λ v.
            (listeners (find l'.storage v) ≡ listeners (find l.storage v) ++ [])
            × (handler (find l'.storage v) ≡ some f.id))
          ((==_iff u t).0 p)
          (let e : find l'.storage u ≡ some (set_handler (or_new (find l.storage u)) f) =
              ground (arith, sets u, (==_iff u u).1 refl) in
            rw e (
              or_new_listeners (find l.storage u) ∙ sym (append-nil (listeners (find l.storage u))),
              refl,
            )))
    | inr p ↦ rw p (
        let e : find l'.storage t ≡ find l.storage t = ground (arith, sets t) in
        rw e (sym (append-nil (listeners (find l.storage t))), refl))
  ]

  receive-Remembers :
      (l : Loop types maps) (raw : Msg) (msg : ℕ)
      → (r : Bool × Loop types maps × List (Call types)) → Delivered types maps l raw msg r
      → Remembers l (receive raw msg ∷ []) r.1
  unfolding listeners_of handler_of
  receive-Remembers l raw msg (ret, l', calls) (same_index, nothing, something, iff) t =
      elim (Option-cases (find l.storage t)) [
        | inl e ↦ rw (e, (nothing t e).0) (refl, refl)
        | inr (s, e) ↦
            let keeps = times_keeps (count msg (native_msg types maps t)) t s raw in
            rw (e, (something t s e).0) (keeps.0 ∙ sym (append-nil s.listeners), keeps.1)
      ]

  act_lem :
      (l : Loop types maps) (a : Action types maps)
      → IsIndexed types maps l
      → (r : Loop types maps × List (Call types)) × (act types maps l a ≡ some r)
        × IsIndexed types maps r.0
        × Remembers l (a ∷ []) r.0
  unfolding act
  act_lem l (listen u f) h =
      let (indexed, sets) = on_lem types maps l u f h in
      ((on types maps l u f, []), refl, indexed, listen-Remembers l (on types maps l u f) u f sets)
  act_lem l (handle u f) h =
      let (indexed, sets) = handle_by_lem types maps l u f h in
      (
        (handle_by types maps l u f, []),
        refl,
        indexed,
        handle-Remembers l (handle_by types maps l u f) u f sets,
      )
  act_lem l (receive raw msg) h =
      let (r, eq, d) = dispatch_lem types maps l raw msg h in
      (
        (r.1, r.2),
        rw (eq, act) refl,
        Delivered-IsIndexed types maps l raw msg h r d,
        receive-Remembers l raw msg r d,
      )

  history_first :
      (t : ℕ) (a : Action types maps) (as' : List (Action types maps)) (o : Option ℕ)
      → (listeners_of t (a ∷ as') ≡ listeners_of t (a ∷ []) ++ listeners_of t as')
        × (handler_of t (a ∷ as') o ≡ handler_of t as' (handler_of t (a ∷ []) o))
  unfolding listeners_of handler_of
  history_first t (listen u f) as' o = ground arith
  history_first t (handle u f) as' o = (refl, refl)
  history_first t (receive raw msg) as' o = (refl, refl)

  Remembers-step :
      (l l1 l2 : Loop types maps) (a : Action types maps) (as' : List (Action types maps))
      → Remembers l (a ∷ []) l1
      → Remembers l1 as' l2
      → Remembers l (a ∷ as') l2
  Remembers-step l l1 l2 a as' first rest t =
      let (heard, by) = history_first t a as' (handler (find l.storage t)) in
      let known = listeners (find l.storage t) in
      (
        (rest t).0
            ∙ ap (λ fs. fs ++ listeners_of t as') (first t).0
            ∙ append_assoc known (listeners_of t (a ∷ [])) (listeners_of t as')
            ∙ ap (λ fs. known ++ fs) (sym heard),
        (rest t).1 ∙ ap (λ o. handler_of t as' o) (first t).1 ∙ sym by,
      )

  run_lem :
      (l : Loop types maps) (as' : List (Action types maps))
      → IsIndexed types maps l
      → (r : Loop types maps × List (Call types)) × (run types maps l as' ≡ some r)
        × IsIndexed types maps r.0
        × Remembers l as' r.0
  unfolding run listeners_of handler_of
  run_lem l [] h = ((l, []), refl, h, λ t. (sym (append-nil (listeners (find l.storage t))), refl))
  run_lem l (a ∷ as') h =
      let (r1, eq1, h1, first) = act_lem l a h in
      let (r2, eq2, h2, rest) = run_lem r1.0 as' h1 in
      (
        (r2.0, r1.1 ++ r2.1),
        rw (eq1, eq2, run) refl,
        h2,
        Remembers-step l r1.0 r2.0 a as' first rest,
      )

  -- Whatever types of events get listeners and handlers and whatever messages arrive, in any order,
  -- no message meets a type that has no scheduler, so that no call goes through a null pointer. At
  -- the end the listeners of a type are those that were added for it, in order, with the states that
  -- they were added with, its handler is the last that was set for it, and every type that has a
  -- scheduler stands under each message as often as its converter names it, and no other type does.
  pub run_remembers :
      (as' : List (Action types maps))
      → (r : Loop types maps × List (Call types)) × (run types maps (new_loop types maps) as'
          ≡ some r)
        × IsIndexed types maps r.0
        × ((t : ℕ)
            → (listeners (find r.0.storage t) ≡ listeners_of t as')
              × (handler (find r.0.storage t) ≡ handler_of t as' none))
  run_remembers as' =
      let (r, eq, indexed, known) =
        run_lem (new_loop types maps) as' (new_loop-IsIndexed types maps) in
      let fresh = λ (t : ℕ). find-no_values t in
      (
        r,
        eq,
        indexed,
        λ t. (
          (known t).0 ∙ ap (λ o. listeners o ++ listeners_of t as') (fresh t),
          (known t).1 ∙ ap (λ o. handler_of t as' (handler o)) (fresh t),
        ),
      )
