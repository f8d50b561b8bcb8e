-- ===== src/Platform/MessageLoop/Delivery.antt =====
-- ecs/platform/message_loop/message_loop.cpp: a dispatch from a loop whose index is in order.
use engi_cs.Base.{
  ℕ, ◌≡◌, refl, ◌↔◌, inl, inr, Bool, true, none, some, List, [], count, arith, ap, Option-cases,
}
use engi_cs.Platform.Events.{Msg}
use engi_cs.Platform.MessageLoop.Containers.{Maps}
use engi_cs.Platform.MessageLoop.Schedulers.{EventTypes, Scheduler, Call}
use engi_cs.Platform.MessageLoop.{Loop, native_msg, dispatch}
use engi_cs.Platform.MessageLoop.Invariant.{IsIndexed}
use engi_cs.Platform.MessageLoop.Dispatch.{calls_of, times, Dispatched, dispatch_each_lem}

module _ (types : EventTypes) (maps : Maps Scheduler) where
  open maps use {find, equal_range}

  -- A type's scheduler is given the message once for each time that `nativeMsg` names it.
  abbrev pub Delivered :
      Loop types maps → Msg → ℕ → Bool × Loop types maps × List (Call types) → Type 0
  Delivered l raw msg (ret, l', calls) =
      (l'.index ≡ l.index)
      × ((u : ℕ)
          → find l.storage u ≡ none
          → (find l'.storage u ≡ none) × (calls_of types u calls ≡ []))
      × ((u : ℕ) (s : Scheduler)
          → find l.storage u ≡ some s
          → (find l'.storage u ≡ some (times types (count msg (native_msg types maps u)) u s raw).1)
            × (calls_of types u calls
                ≡ (times types (count msg (native_msg types maps u)) u s raw).2))
      × ((ret ≡ true) ↔ (
          (u : ℕ) (s : Scheduler)
          → find l.storage u ≡ some s
          → (times types (count msg (native_msg types maps u)) u s raw).0 ≡ true))

  counted :
      (l : Loop types maps) (msg u : ℕ) (s : Scheduler)
      → IsIndexed types maps l
      → find l.storage u ≡ some s
      → count u (equal_range l.index msg) ≡ count msg (native_msg types maps u)
  counted l msg u s h e = ground (arith, h u msg, e)

  Delivered-Dispatched :
      (l : Loop types maps) (raw : Msg) (msg : ℕ)
      → IsIndexed types maps l
      → (r : Bool × Loop types maps × List (Call types))
      → Dispatched types maps (equal_range l.index msg) l raw true r
      → Delivered l raw msg r
  Delivered-Dispatched l raw msg h (ret, l', calls) (same_index, alone, iff) = (
    same_index,
    λ u e. (alone u).0 e,
    λ u s e. rw (← counted l msg u s h e) ((alone u).1 s e),
    (
      λ p u s e. rw (← counted l msg u s h e) ((iff.0 p).1 u s e),
      λ a. iff.1 (refl, λ u s e. rw (counted l msg u s h e) (a u s e)),
    ),
  )

  pub dispatch_lem :
      (l : Loop types maps) (raw : Msg) (msg : ℕ)
      → IsIndexed types maps l
      → (r : Bool × Loop types maps × List (Call types)) × (dispatch types maps l raw msg ≡ some r)
        × Delivered l raw msg r
  unfolding dispatch
  dispatch_lem l raw msg h =
      let (r, eq, d) =
        dispatch_each_lem types maps (equal_range l.index msg) l raw true
          (λ u e. ground (arith, h u msg, e)) in
      (r, eq, Delivered-Dispatched l raw msg h r d)

  -- A dispatch keeps the index in order.
  pub Delivered-IsIndexed :
      (l : Loop types maps) (raw : Msg) (msg : ℕ)
      → IsIndexed types maps l
      → (r : Bool × Loop types maps × List (Call types)) → Delivered l raw msg r
      → IsIndexed types maps r.1
  Delivered-IsIndexed l raw msg h (ret, l', calls) (same_index, nothing, something, iff) u m =
      let indexed : count u (equal_range l'.index m) ≡ count u (equal_range l.index m) =
        ap (λ i. count u (equal_range i m)) same_index in
      elim (Option-cases (find l.storage u)) [
        | inl e ↦ ground (arith, indexed, h u m, e, (nothing u e).0)
        | inr (s, e) ↦ ground (arith, indexed, h u m, e, (something u s e).0)
      ]
