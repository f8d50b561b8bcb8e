-- ===== src/Platform/MessageLoop/Run.antt =====
-- ecs/platform/message_loop/message_loop.cpp: `Run`, which takes messages and calls tasks in turn
-- until a message asks to quit. No listener posts a task here.
use mathlib.Core.Path.{subst}
use engi_cs.Base.{
  sym, ℕ, zero, suc, ◌≡◌, ◌<◌, refl, ap, ◌∙◌, true, false, not, Option, none, some, List, [], ◌++◌,
  ◌==◌, if◌then◌else◌, Option-cases, inl, inr, arith, Bool-cases,
}
use engi_cs.Platform.Events.{Msg}
use engi_cs.Platform.MessageLoop.Containers.{Maps}
use engi_cs.Platform.MessageLoop.Schedulers.{EventTypes, Scheduler, Call}
use engi_cs.Platform.MessageLoop.{Loop}
use engi_cs.Platform.MessageLoop.Invariant.{IsIndexed}
use engi_cs.Platform.MessageLoop.Delivery.{dispatch_lem, Delivered-IsIndexed}
use engi_cs.Platform.MessageLoop.Window.{Windows, answered, pool_event}
use engi_cs.Platform.MessageLoop.Tasks.{
  LoopQueue, Behaviour, Tasks, total, drain, IsBalanced, drain-IsBalanced,
}

module _ (types : EventTypes) (maps : Maps Scheduler) (windows : Windows) (queues : LoopQueue)
    (behaviour : Behaviour) where
  open windows use {System, peek_message, wm_quit, to_window}
  open queues use {items}
  open behaviour use {weight, returns}

  pub record Running : Type 0 where
    pub loop : Loop types maps
    pub system : System
    pub work : Tasks queues
    pub calls : List (Call types)

  -- `turns` bounds the turns of the outer loop and `fuel` those of the inner one; `none` means that
  -- one of them ran out, or a call through a null pointer.
  unfoldable pub run_loop : (turns fuel : ℕ) → Running → Option Running
  run_loop zero fuel r = none
  run_loop (suc n) fuel r = elim (pool_event types maps windows (r.loop, r.system)) [
    | none ↦ none
    | some (goes_on, (l, sys), more) ↦
        let polled : Running = record r { loop = l; system = sys; calls = r.calls ++ more } in
        if goes_on
        then elim (drain queues behaviour fuel polled.work) [
          | none ↦ none
          | some done ↦ run_loop n fuel (record polled { work = done })
        ]
        else some polled
  ]

  -- The number of the message that `PoolEvent` takes, 0 if there is none, and the turn in which it
  -- is `WM_QUIT`.
  abbrev taken : Option Msg → ℕ
  taken none = 0
  taken (some m) = m.message

  abbrev pub QuitsAfter : ℕ → System → Type 0
  QuitsAfter zero sys = (taken (peek_message sys).0 == wm_quit) ≡ true
  QuitsAfter (suc n) sys =
      ((taken (peek_message sys).0 == wm_quit) ≡ false) × QuitsAfter n (peek_message sys).1

  abbrev Polled : Loop types maps → System → Type 0
  Polled l sys =
      (l' : Loop types maps) × (calls : List (Call types)) × (pool_event types maps windows (l, sys)
        ≡ some (not (taken (peek_message sys).0 == wm_quit), (l', (peek_message sys).1), calls))
      × IsIndexed types maps l'

  pool_event_some :
      (l : Loop types maps) (sys : System) (m : Msg)
      → (peek_message sys).0 ≡ some m
      → IsIndexed types maps l
      → Polled l sys
  unfolding pool_event
  pool_event_some l sys m e h = elim (Bool-cases (to_window m)) [
    | inl p ↦
        let (r, eq, delivered) = dispatch_lem types maps l m m.message h in
        let (after, procedure, same, by_result) = answered types maps l m r eq in
        (
          after.1,
          after.2,
          rw (e, p, procedure, pool_event) refl,
          subst (λ (l' : Loop types maps). IsIndexed types maps l') (sym same)
              (Delivered-IsIndexed types maps l m m.message h r delivered),
        )
    | inr p ↦ (l, [], rw (e, p, pool_event) refl, h)
  ]

  -- `PoolEvent` returns, and goes on unless it takes `WM_QUIT`.
  pool_event_lem : (l : Loop types maps) (sys : System) → IsIndexed types maps l → Polled l sys
  unfolding pool_event
  pool_event_lem l sys h = elim (Option-cases (peek_message sys).0) [
    | inl e ↦ (l, [], rw (e, pool_event) refl, h)
    | inr (m, e) ↦ pool_event_some l sys m e h
  ]

  -- `Run` returns if `WM_QUIT` is the message after `n` others, or polls that find none, whatever
  -- the messages are and the tasks do, if its turns are more than `n` and the tasks in the queue
  -- weigh less than its fuel. If `WM_QUIT` comes at once no task is called and the tasks stay as they
  -- were; else the queue is empty at the end. It keeps the balance: every task that was taken is in
  -- the queue or was called, and those are destroyed that were refused or returned.
  pub run_ends :
      (turns fuel n : ℕ) (r : Running)
      → IsIndexed types maps r.loop
      → IsBalanced queues behaviour r.work
      → QuitsAfter n r.system
      → n < turns
      → total weight (items r.work.queue) < fuel
      → (r' : Running) × (run_loop turns fuel r ≡ some r')
        × (n ≡ 0 → r'.work ≡ r.work)
        × (0 < n → items r'.work.queue ≡ [])
        × IsBalanced queues behaviour r'.work
  unfolding run_loop
  run_ends zero fuel n r indexed balanced quits more light = absurd (omega arith)
  run_ends (suc turns) fuel zero r indexed balanced quits more light =
      let (l', calls, eq, indexed') = pool_event_lem r.loop r.system indexed in
      (
        record r { loop = l'; system = (peek_message r.system).1; calls = r.calls ++ calls },
        rw (eq, quits, run_loop) refl,
        λ e. refl,
        λ lt. absurd (omega arith),
        balanced,
      )
  run_ends (suc turns) fuel (suc n) r indexed balanced (goes_on, quits) more light =
      let (l', calls, eq, indexed') = pool_event_lem r.loop r.system indexed in
      let (w, drained, empty, balanced') =
        drain-IsBalanced queues behaviour fuel r.work balanced light in
      let next : Running = record {
        loop = l';
        system = (peek_message r.system).1;
        work = w;
        calls = r.calls ++ calls;
      } in
      let (r', ran, at_once, later, balanced'') =
        run_ends turns fuel n next indexed' balanced' quits (omega arith)
          (omega (arith, ap (λ l. total weight l) empty)) in
      (
        r',
        rw (eq, goes_on, drained, run_loop) ran,
        λ e. absurd (omega arith),
        λ lt. elim (Bool-cases (n == 0)) [
          | inl z ↦ ap (λ (t : Tasks queues). items t.queue) (at_once (ground arith)) ∙ empty
          | inr z ↦ later (ground arith)
        ],
        balanced'',
      )
