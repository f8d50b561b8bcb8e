-- ===== src/EventLoop/Waits.antt =====
-- ecs/concurrency/run_loop/event_loop.cpp: the waits of a timer.
use engi_cs.Base.{
  ℕ, zero, suc, ◌+◌, ◌≤◌, ◌≡◌, ◌≢◌, refl, ◌∙◌, false, inl, inr, Option, some, List, [], ◌∷◌, ◌++◌,
  map, length, ◌==◌, Bool-cases, arith,
}
use engi_cs.EventLoop.Timer.{
  Completion, expired, aborted, Timer, cancel, wait, start, stop, run, complete, Event, started,
  stopped, expires, turn, expire, step, steps,
}

-- No handler in a queue has expired.
abbrev pub NoneExpired : List Completion → Type 0
NoneExpired [] = Unit {0}
NoneExpired (expired repeat ∷ cs) = ⊥
NoneExpired (aborted repeat ∷ cs) = NoneExpired cs

-- What happens with no call of `Start`.
abbrev pub Undisturbed : List Event → Type 0
Undisturbed [] = Unit {0}
Undisturbed (started delay repeat ∷ es) = ⊥
Undisturbed (stopped ∷ es) = Undisturbed es
Undisturbed (expires ∷ es) = Undisturbed es
Undisturbed (turn ∷ es) = Undisturbed es

-- A timer that waits for nothing and has no expired handler stays so.
record IsStill (t : Timer) : Type 0 where
  idle : t.pending ≡ []
  quiet : NoneExpired t.queued

-- The state after a call leaves the callback's runs.
abbrev Stays : Option Timer → Timer → Type 0
Stays o t = (t' : Timer) × (o ≡ some t') × IsStill t' × (t'.runs ≡ t.runs)

-- If the first handler in the queue has expired and repeats, `Stop` does not end the timer: the next
-- turn of the event loop calls the callback and waits again.
pub stop_late :
    (t : Timer) (repeat task : ℕ) (cs : List Completion)
    → t.queued ≡ expired repeat ∷ cs
    → repeat ≢ 0
    → t.callback ≡ some task
    → (t' : Timer) × (steps (stopped ∷ turn ∷ []) t ≡ some t')
      × (t'.runs ≡ t.runs + 1)
      × (t'.pending ≡ repeat ∷ [])
unfolding steps stop complete wait run
stop_late t repeat task cs e positive c =
    let again : (repeat == 0) ≡ false = ground (arith, positive) in
    (
      record t {
        queued = (cs ++ map aborted t.pending) ++ [];
        runs = t.runs + 1;
        pending = repeat ∷ [];
      },
      ground (arith, e, c, again),
      refl,
      refl,
    )

-- If the first handler in the queue has expired and repeats, a new `Start` is lost: the next turn of
-- the event loop waits again by the old repetition, and the wait of the new `Start` is aborted.
pub start_lost :
    (t : Timer) (repeat task delay repeat' : ℕ) (cs : List Completion)
    → t.queued ≡ expired repeat ∷ cs
    → repeat ≢ 0
    → t.callback ≡ some task
    → (t' : Timer) × (steps (started delay repeat' ∷ turn ∷ []) t ≡ some t')
      × (t'.pending ≡ repeat ∷ [])
      × (t'.queued ≡ (cs ++ map aborted t.pending) ++ (aborted repeat' ∷ []))
unfolding steps start complete wait run
start_lost t repeat task delay repeat' cs e positive c =
    let again : (repeat == 0) ≡ false = ground (arith, positive) in
    (
      record t {
        queued = (cs ++ map aborted t.pending) ++ (aborted repeat' ∷ []);
        runs = t.runs + 1;
        pending = repeat ∷ [];
      },
      ground (arith, e, c, again),
      refl,
      refl,
    )

-- A timer with a callback and at most one wait.
record IsReady (task : ℕ) (t : Timer) : Type 0 where
  called : t.callback ≡ some task
  one : length t.pending ≤ 1

complete-IsReady :
    (c : Completion) (t : Timer) {task : ℕ}
    → IsReady task t
    → (t' : Timer) × (complete c t ≡ some t') × IsReady task t'
unfolding complete wait run
complete-IsReady (aborted r) t h = (record t { errors = t.errors + 1 }, refl, ground arith)
complete-IsReady (expired r) t h = elim (Bool-cases (r == 0)) [
  | inl e ↦ (record t { runs = t.runs + 1 }, ground (arith, h.called, e), ground arith)
  | inr e ↦ (
    wait r (record t { runs = t.runs + 1 }),
    ground (arith, h.called, e),
    record { called = h.called; one = omega arith },
  )
]

turn-IsReady :
    (cs : List Completion) (t : Timer) {task : ℕ}
    → t.queued ≡ cs
    → IsReady task t
    → (t' : Timer) × (step turn t ≡ some t') × IsReady task t'
unfolding step
turn-IsReady [] t e h = (t, rw (e, step) refl, h)
turn-IsReady (c ∷ cs) t {task} e h =
    let left : IsReady task (record t { queued = cs }) = record {
      called = h.called;
      one = h.one;
    } in
    let (t', eq, h') = complete-IsReady c (record t { queued = cs }) left in
    (t', ground (arith, e, eq), h')

step-IsReady :
    (e : Event) (t : Timer) {task : ℕ}
    → IsReady task t
    → (t' : Timer) × (step e t ≡ some t') × IsReady task t'
unfolding step start stop wait
step-IsReady (started d r) t h = (wait r t, refl, record { called = h.called; one = omega arith })
step-IsReady stopped t h = (cancel t, refl, record { called = h.called; one = omega arith })
step-IsReady expires t h = (expire t, refl, record { called = h.called; one = omega arith })
step-IsReady turn t h = turn-IsReady t.queued t refl h

-- A timer with a callback never fails, whatever is called and whatever expires, in any order, and at
-- most one wait is pending at any time if this is so at the start.
pub one_wait :
    (es : List Event) (t : Timer) (task : ℕ)
    → t.callback ≡ some task
    → length t.pending ≤ 1
    → (t' : Timer) × (steps es t ≡ some t') × (t'.callback ≡ some task) × (length t'.pending ≤ 1)
unfolding steps
one_wait [] t task c one = (t, refl, c, one)
one_wait (e ∷ es) t task c one =
    let (t1, eq1, h1) = step-IsReady e t (record { called = c; one = one }) in
    let (t2, eq2, c2, one2) = one_wait es t1 task h1.called h1.one in
    (t2, rw (eq1, steps) eq2, c2, one2)

abbrev pub periods : ℕ → List Event
periods zero = []
periods (suc n) = expires ∷ turn ∷ periods n

-- A timer that waits with a repetition, with no handler in the queue, calls its callback once for
-- each of `n` expiries that the event loop answers, and then waits again.
pub repeats :
    (n : ℕ) (t : Timer) (repeat task : ℕ)
    → t.callback ≡ some task
    → repeat ≢ 0
    → t.pending ≡ repeat ∷ []
    → t.queued ≡ []
    → (t' : Timer) × (steps (periods n) t ≡ some t')
      × (t'.runs ≡ t.runs + n)
      × (t'.pending ≡ repeat ∷ [])
      × (t'.queued ≡ [])
unfolding steps complete wait run
repeats zero t repeat task c positive p q = (t, refl, omega arith, p, q)
repeats (suc n) t repeat task c positive p q =
    let again : (repeat == 0) ≡ false = ground (arith, positive) in
    let after : Timer = record t { pending = repeat ∷ []; queued = []; runs = t.runs + 1 } in
    let expired_now : steps (expires ∷ turn ∷ periods n) t ≡ steps (periods n) after =
      ground (arith, c, again, p, q) in
    let (t', eq, ran, p', q') = repeats n after repeat task c positive refl refl in
    (t', expired_now ∙ eq, omega arith, p', q')
