-- ===== src/Platform/MessageLoop/Dispatch.antt =====
-- ecs/platform/message_loop/message_loop.cpp: what a dispatch makes of each type of event.
use mathlib.Core.Path.{subst}
use mathlib.Core.List.{map}
use engi_cs.Base.{
  ℕ, zero, suc, ◌≡◌, refl, sym, ap, ap₂, ◌∙◌, ◌↔◌, inl, inr, Bool, true, false, Option, none, some,
  List, [], ◌∷◌, ◌++◌, ◌==◌, ==_iff, ◌&&◌, if◌then◌else◌, count, Option-cases, Bool-cases, arith,
}
use engi_cs.Platform.Events.{Msg, EventConverter}
use engi_cs.Platform.MessageLoop.Containers.{Maps}
use engi_cs.Platform.MessageLoop.Schedulers.{
  EventTypes, Function, Scheduler, Call, handled, listened, call_handler, schedule_dispatch,
}
use engi_cs.Platform.MessageLoop.{Loop, dispatch_each}

module _ (types : EventTypes) where
  abbrev pub type_of : Call types → ℕ
  type_of (handled t f e) = t
  type_of (listened t f e) = t

  -- The calls for one type of event, in order.
  unfoldable pub calls_of : ℕ → List (Call types) → List (Call types)
  calls_of t [] = []
  calls_of t (c ∷ cs) = if type_of c == t then c ∷ calls_of t cs else calls_of t cs

  -- What a scheduler alone makes of a message that it is given `n` times.
  unfoldable pub times : ℕ → ℕ → Scheduler → Msg → Bool × Scheduler × List (Call types)
  times zero t s raw = (true, s, [])
  times (suc n) t s raw =
      let (r, s', calls) = schedule_dispatch types t s raw in
      let (r', s'', more) = times n t s' raw in (r && r', s'', calls ++ more)

  same_number : (n : ℕ) → (n == n) ≡ true
  same_number n = (==_iff n n).1 refl

  calls_of-append :
      (t : ℕ) (cs ds : List (Call types)) → calls_of t (cs ++ ds) ≡ calls_of t cs ++ calls_of t ds
  unfolding calls_of
  calls_of-append t [] ds = refl
  calls_of-append t (c ∷ cs) ds = ground (arith, calls_of-append t cs ds)

  listened_same :
      (t : ℕ) (e : EventTypes.Event types t) (fs : List Function)
      → calls_of t (map (λ f. listened t f e) fs) ≡ map (λ f. listened t f e) fs
  unfolding calls_of
  listened_same t e [] = refl
  listened_same t e (f ∷ fs) =
      rw (same_number t) (ap (λ l. listened t f e ∷ l) (listened_same t e fs))

  listened_other :
      (t u : ℕ) (e : EventTypes.Event types t) (fs : List Function)
      → (t == u) ≡ false
      → calls_of u (map (λ f. listened t f e) fs) ≡ []
  unfolding calls_of
  listened_other t u e [] h = refl
  listened_other t u e (f ∷ fs) h = rw h (listened_other t u e fs h)

  handler_same :
      (t : ℕ) (e : EventTypes.Event types t) (o : Option Function)
      → calls_of t (call_handler types t e o).2 ≡ (call_handler types t e o).2
  unfolding calls_of call_handler
  handler_same t e none = refl
  handler_same t e (some f) = rw (same_number t)

  handler_other :
      (t u : ℕ) (e : EventTypes.Event types t) (o : Option Function)
      → (t == u) ≡ false
      → calls_of u (call_handler types t e o).2 ≡ []
  unfolding calls_of call_handler
  handler_other t u e none h = refl
  handler_other t u e (some f) h = rw h

  scheduled_same :
      (t : ℕ) (s : Scheduler) (raw : Msg)
      → let calls = (schedule_dispatch types t s raw).2 in calls_of t calls ≡ calls
  unfolding schedule_dispatch
  scheduled_same t s raw =
      let e = EventConverter.from_native (EventTypes.converter types t) raw in
      calls_of-append t (call_handler types t e s.handler).2 (map (λ f. listened t f e) s.listeners)
      ∙ ap₂ ◌++◌ (handler_same t e s.handler) (listened_same t e s.listeners)

  scheduled_other :
      (t u : ℕ) (s : Scheduler) (raw : Msg)
      → (t == u) ≡ false
      → calls_of u (schedule_dispatch types t s raw).2 ≡ []
  unfolding schedule_dispatch
  scheduled_other t u s raw h =
      let e = EventConverter.from_native (EventTypes.converter types t) raw in
      calls_of-append u (call_handler types t e s.handler).2 (map (λ f. listened t f e) s.listeners)
      ∙ ap₂ ◌++◌ (handler_other t u e s.handler h) (listened_other t u e s.listeners h)

module _ (types : EventTypes) (maps : Maps Scheduler) where
  open maps use {find, assign, find-assign}

  -- What a dispatch leaves and calls for one type of event: what its scheduler alone makes of the
  -- message, given as often as the type stands in `ts`, or nothing if it has none.
  abbrev pub Alone :
      List ℕ → Loop types maps → Msg → Loop types maps → List (Call types) → ℕ → Type 0
  Alone ts l raw l' calls u =
      (find l.storage u ≡ none → (find l'.storage u ≡ none) × (calls_of types u calls ≡ []))
      × ((s : Scheduler)
          → find l.storage u ≡ some s
          → (find l'.storage u ≡ some (times types (count u ts) u s raw).1)
            × (calls_of types u calls ≡ (times types (count u ts) u s raw).2))

  -- Every scheduler of `ts` accepts the message.
  abbrev pub Accepted : List ℕ → Loop types maps → Msg → Type 0
  Accepted ts l raw =
      (u : ℕ) (s : Scheduler)
      → find l.storage u ≡ some s
      → (times types (count u ts) u s raw).0 ≡ true

  abbrev pub Dispatched :
      List ℕ → Loop types maps → Msg → Bool → Bool × Loop types maps × List (Call types) → Type 0
  Dispatched ts l raw ret (ret', l', calls) =
      (l'.index ≡ l.index)
      × ((u : ℕ) → Alone ts l raw l' calls u)
      × ((ret' ≡ true) ↔ ((ret ≡ true) × Accepted ts l raw))

  abbrev pub HasAll : List ℕ → Loop types maps → Type 0
  HasAll ts l = (u : ℕ) → find l.storage u ≡ none → count u ts ≡ 0

  -- The loop after the first entry of a dispatch.
  abbrev after : Loop types maps → ℕ → Scheduler → Msg → Loop types maps
  after l t s raw = record l { storage = assign l.storage t (schedule_dispatch types t s raw).1 }

  count_same : (t : ℕ) (ts : List ℕ) → count t (t ∷ ts) ≡ suc (count t ts)
  count_same t ts = ground (arith, same_number types t)

  count_other : (t u : ℕ) (ts : List ℕ) → (t == u) ≡ false → count u (t ∷ ts) ≡ count u ts
  count_other t u ts h = ground arith

  after_same :
      (l : Loop types maps) (t : ℕ) (s : Scheduler) (raw : Msg)
      → find l.storage t ≡ some s
      → find (after l t s raw).storage t ≡ some (schedule_dispatch types t s raw).1
  after_same l t s raw e =
      let p = find-assign l.storage t (schedule_dispatch types t s raw).1 s t e in
      ground (arith, p, same_number types t)

  after_other :
      (l : Loop types maps) (t u : ℕ) (s : Scheduler) (raw : Msg)
      → find l.storage t ≡ some s
      → (t == u) ≡ false
      → find (after l t s raw).storage u ≡ find l.storage u
  after_other l t u s raw e h =
      let p = find-assign l.storage t (schedule_dispatch types t s raw).1 s u e in ground (arith, p)

  module _ (t : ℕ) (ts : List ℕ) (l : Loop types maps) (raw : Msg) (s : Scheduler)
      (e : find l.storage t ≡ some s) where
    after-HasAll : HasAll (t ∷ ts) l → HasAll ts (after l t s raw)
    after-HasAll h u none_left = elim (Bool-cases (t == u)) [
      | inl p ↦
          let eq : t ≡ u = (==_iff t u).0 p in
          let there =
            subst (λ v. find (after l t s raw).storage v ≡ some (schedule_dispatch types t s raw).1)
              eq (after_same l t s raw e) in
          absurd (ground (arith, there, none_left))
      | inr p ↦
          let before : count u (t ∷ ts) ≡ 0 = h u (sym (after_other l t u s raw e p) ∙ none_left) in
          sym (count_other t u ts p) ∙ before
    ]

    Alone-same :
        (l' : Loop types maps) (more : List (Call types))
        → Alone ts (after l t s raw) raw l' more t
        → Alone (t ∷ ts) l raw l' ((schedule_dispatch types t s raw).2 ++ more) t
    unfolding times
    Alone-same l' more (_, some_case) = (
      λ none_left. absurd (ground (arith, e, none_left)),
      λ s2 e2.
          let same : s ≡ s2 = ground (arith, e, e2) in
          let (stored, called) = some_case _ (after_same l t s raw e) in
          let first = scheduled_same types t s raw in
          subst
            (λ v.
              (find l'.storage t ≡ some (times types (count t (t ∷ ts)) t v raw).1)
              × (calls_of types t ((schedule_dispatch types t s raw).2 ++ more)
                  ≡ (times types (count t (t ∷ ts)) t v raw).2))
            same
            (rw (count_same t ts) (
              stored,
              calls_of-append types t (schedule_dispatch types t s raw).2 more
                  ∙ ap₂ ◌++◌ first called,
            )),
    )

    Alone-other :
        (l' : Loop types maps) (more : List (Call types)) (u : ℕ)
        → (t == u) ≡ false
        → Alone ts (after l t s raw) raw l' more u
        → Alone (t ∷ ts) l raw l' ((schedule_dispatch types t s raw).2 ++ more) u
    Alone-other l' more u p (none_case, some_case) =
        let first =
          calls_of-append types u (schedule_dispatch types t s raw).2 more
          ∙ ap (λ c. c ++ calls_of types u more) (scheduled_other types t u s raw p) in
        let kept = after_other l t u s raw e p in
        (
          λ none_left.
              let (stored, called) = none_case (kept ∙ none_left) in (stored, first ∙ called),
          λ s2 e2.
              let (stored, called) = some_case s2 (kept ∙ e2) in
              rw (count_other t u ts p) (stored, first ∙ called),
        )

    first_result : (times types (count t (t ∷ ts)) t s raw).0 ≡ (
        (schedule_dispatch types t s raw).0
        && (times types (count t ts) t (schedule_dispatch types t s raw).1 raw).0)
    unfolding times
    first_result = rw (count_same t ts) refl

    Accepted-first :
        Accepted (t ∷ ts) l raw
        → ((schedule_dispatch types t s raw).0 ≡ true) × Accepted ts (after l t s raw) raw
    Accepted-first a = (
      ground (arith, a t s e, first_result),
      λ u s2 e2. elim (Bool-cases (t == u)) [
        | inl p ↦
            let eq : t ≡ u = (==_iff t u).0 p in
            subst
              (λ v.
                find (after l t s raw).storage v ≡ some s2
                → (times types (count v ts) v s2 raw).0 ≡ true)
              eq
              (λ e3.
                let same : (schedule_dispatch types t s raw).1 ≡ s2 =
                  ground (arith, e3, after_same l t s raw e) in
                subst (λ w. (times types (count t ts) t w raw).0 ≡ true) same
                  (ground (arith, a t s e, first_result)))
              e2
        | inr p ↦ rw (← count_other t u ts p) (a u s2 (sym (after_other l t u s raw e p) ∙ e2))
      ],
    )

    Accepted-rest :
        (schedule_dispatch types t s raw).0 ≡ true
        → Accepted ts (after l t s raw) raw
        → Accepted (t ∷ ts) l raw
    Accepted-rest r a u s2 e2 = elim (Bool-cases (t == u)) [
      | inl p ↦
          let eq : t ≡ u = (==_iff t u).0 p in
          subst
            (λ v. find l.storage v ≡ some s2 → (times types (count v (t ∷ ts)) v s2 raw).0 ≡ true)
            eq
            (λ e3.
              let same : s ≡ s2 = ground (arith, e3, e) in
              subst (λ w. (times types (count t (t ∷ ts)) t w raw).0 ≡ true) same
                (ground (arith, r, first_result, a t _ (after_same l t s raw e))))
            e2
      | inr p ↦ rw (count_other t u ts p) (a u s2 (after_other l t u s raw e p ∙ e2))
    ]

  pub dispatch_each_lem :
      (ts : List ℕ) (l : Loop types maps) (raw : Msg) (ret : Bool)
      → HasAll ts l
      → (r : Bool × Loop types maps × List (Call types)) × (dispatch_each types maps ts l raw ret
          ≡ some r)
        × Dispatched ts l raw ret r
  unfolding dispatch_each calls_of times
  dispatch_each_lem [] l raw ret h = (
    (ret, l, []),
    refl,
    (refl, λ u. (λ e. (e, refl), λ s e. (e, refl)), (λ p. (p, λ u s e. refl), λ p. p.0)),
  )
  dispatch_each_lem (t ∷ ts) l raw ret h = elim (Option-cases (find l.storage t)) [
    | inl e ↦ absurd (ground (arith, h t e, count_same t ts))
    | inr (s, e) ↦
        let ((ret', l', more), eq, (same_index, alone, iff)) =
          dispatch_each_lem ts (after l t s raw) raw ((schedule_dispatch types t s raw).0 && ret)
            (after-HasAll t ts l raw s e h) in
        (
          (ret', l', (schedule_dispatch types t s raw).2 ++ more),
          rw (e, eq, dispatch_each) refl,
          (
            same_index,
            λ u. elim (Bool-cases (t == u)) [
              | inl p ↦
                  subst
                    (λ v. Alone (t ∷ ts) l raw l' ((schedule_dispatch types t s raw).2 ++ more) v)
                    ((==_iff t u).0 p) (Alone-same t ts l raw s e l' more (alone t))
              | inr p ↦ Alone-other t ts l raw s e l' more u p (alone u)
            ],
            (
              λ p.
                  let (both, rest) = iff.0 p in
                  (ground (arith, both), Accepted-rest t ts l raw s e (ground (arith, both)) rest),
              λ q.
                  let (first, rest) = Accepted-first t ts l raw s e q.1 in
                  iff.1 (ground (arith, first, q.0), rest),
            ),
          ),
        )
  ]
