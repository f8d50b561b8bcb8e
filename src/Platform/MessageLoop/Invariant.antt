-- ===== src/Platform/MessageLoop/Invariant.antt =====
-- ecs/platform/message_loop/message_loop.cpp: the index of the message loop has each type that has a
-- scheduler under each of its messages, and no other.
use engi_cs.Base.{
  ℕ, ◌+◌, ◌≡◌, refl, inl, inr, Bool, true, false, Option, none, some, List, [], ◌∷◌, ◌==◌,
  if◌then◌else◌, count, Option-cases, arith,
}
use engi_cs.Platform.MessageLoop.Containers.{Maps}
use engi_cs.Platform.MessageLoop.Schedulers.{
  EventTypes, Function, Scheduler, new_scheduler, add_listener, set_handler,
}
use engi_cs.Platform.MessageLoop.{
  Loop, new_loop, index_each, add_scheduler, get_or_create_scheduler, native_msg, on, handle_by,
}

abbrev pub is_some {ℓ} : {A : Type ℓ} → Option A → Bool
is_some none = false
is_some (some a) = true

abbrev pub or_new : Option Scheduler → Scheduler
or_new none = new_scheduler
or_new (some s) = s

module _ (types : EventTypes) (maps : Maps Scheduler) where
  open maps use {
    find, find-no_values, emplace, find-emplace, assign, find-assign, Index, equal_range, insert,
    count-no_entries, count-insert,
  }

  -- How often a type stands under a message, if it has a scheduler or not.
  abbrev pub entries : Bool → ℕ → ℕ → ℕ
  entries has t m = if has then count m (native_msg types maps t) else 0

  abbrev pub IsIndexed : Loop types maps → Type 0
  IsIndexed l =
      (t m : ℕ) → count t (equal_range l.index m) ≡ entries (is_some (find l.storage t)) t m

  -- One scheduler is replaced or added, and the others stay.
  abbrev pub Sets : Loop types maps → ℕ → Scheduler → Loop types maps → Type 0
  Sets l t s l' = (u : ℕ) → find l'.storage u ≡ (if t == u then some s else find l.storage u)

  pub new_loop-IsIndexed : IsIndexed (new_loop types maps)
  new_loop-IsIndexed t m = rw find-no_values (count-no_entries m t)

  count-index_each :
      (i : Index) (t : ℕ) (ms : List ℕ) (n u : ℕ)
      → count u (equal_range (index_each types maps i t ms) n)
        ≡ (if u == t then count n ms else 0) + count u (equal_range i n)
  unfolding index_each
  count-index_each i t [] n u = ground arith
  count-index_each i t (m ∷ ms) n u =
      ground (arith, count-index_each (insert i m t) t ms n u, count-insert i m t n u)

  assign-Sets :
      (l : Loop types maps) (t : ℕ) (s w : Scheduler)
      → find l.storage t ≡ some w
      → Sets l t s (record l { storage = assign l.storage t s })
  assign-Sets l t s w e u = find-assign l.storage t s w u e

  pub assign-IsIndexed :
      (l : Loop types maps) (t : ℕ) (s w : Scheduler)
      → find l.storage t ≡ some w
      → IsIndexed l
      → IsIndexed (record l { storage = assign l.storage t s })
  assign-IsIndexed l t s w e h u m = ground (arith, h u m, find-assign l.storage t s w u e)

  add_scheduler-IsIndexed :
      (l : Loop types maps) (t : ℕ)
      → find l.storage t ≡ none
      → IsIndexed l
      → IsIndexed (add_scheduler types maps l t (native_msg types maps t) new_scheduler)
  unfolding add_scheduler
  add_scheduler-IsIndexed l t e h u m = ground (
    arith,
    count-index_each l.index t (native_msg types maps t) m u,
    h u m,
    find-emplace l.storage t new_scheduler u e,
  )

  created :
      (l : Loop types maps) (t : ℕ)
      → IsIndexed l
      → let (l', s) = get_or_create_scheduler types maps l t in
        IsIndexed l'
        × (find l'.storage t ≡ some s)
        × Sets l t s l'
        × (s ≡ or_new (find l.storage t))
  unfolding get_or_create_scheduler add_scheduler
  created l t h = elim (Option-cases (find l.storage t)) [
    | inl e ↦
        rw (e, get_or_create_scheduler)
          (
            add_scheduler-IsIndexed l t e h,
            ground (arith, find-emplace l.storage t new_scheduler t e),
            λ u. find-emplace l.storage t new_scheduler u e,
            refl,
          )
    | inr (s, e) ↦ rw (e, get_or_create_scheduler) (h, e, λ u. ground arith, refl)
  ]

  -- A registration changes the scheduler of its type alone.
  registered :
      (l : Loop types maps) (t : ℕ) (change : Scheduler → Scheduler)
      → IsIndexed l
      → let (l', s) = get_or_create_scheduler types maps l t in
        let l'' : Loop types maps = record l' { storage = assign l'.storage t (change s) } in
        IsIndexed l'' × Sets l t (change (or_new (find l.storage t))) l''
  registered l t change h =
      let (l', s) = get_or_create_scheduler types maps l t in
      let (indexed, found, sets, old) = created l t h in
      (
        assign-IsIndexed l' t (change s) s found indexed,
        λ u. ground (arith, sets u, assign-Sets l' t (change s) s found u, old),
      )

  pub on_lem :
      (l : Loop types maps) (t : ℕ) (f : Function)
      → IsIndexed l
      → IsIndexed (on types maps l t f)
        × Sets l t (add_listener (or_new (find l.storage t)) f) (on types maps l t f)
  unfolding on
  on_lem l t f h = registered l t (λ s. add_listener s f) h

  pub handle_by_lem :
      (l : Loop types maps) (t : ℕ) (f : Function)
      → IsIndexed l
      → IsIndexed (handle_by types maps l t f)
        × Sets l t (set_handler (or_new (find l.storage t)) f) (handle_by types maps l t f)
  unfolding handle_by
  handle_by_lem l t f h = registered l t (λ s. set_handler s f) h
