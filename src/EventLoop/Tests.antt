-- ===== src/EventLoop/Tests.antt =====
-- A timer that fires, and what it owns.
use engi_cs.Base.{
  ℕ, ◌≡◌, ◌≢◌, ◌≤◌, refl, Bool, false, none, some, [], ◌∷◌, ◌==◌, ◌||◌, length, arith,
}
use engi_cs.EventLoop.Timer.{expired, aborted, Timer, started, stopped, expires, turn, steps}
use engi_cs.EventLoop.Waits.{stop_late, start_lost, one_wait, periods, repeats}
use engi_cs.EventLoop.Owners.{Heap, Members, IsOwner, move_from, destruct, destruct_twice}

abbrev five : Timer
five = record { callback = some 4; pending = 5 ∷ []; queued = []; runs = 0; errors = 0 }

abbrev fired : Timer
fired = record { callback = some 4; pending = []; queued = expired 5 ∷ []; runs = 0; errors = 0 }

five_not_zero : ◌≢◌ {A = ℕ} 5 0
five_not_zero e = omega arith

stop_late_example :
    (t' : Timer) × (steps (stopped ∷ turn ∷ []) fired ≡ some t')
    × (t'.runs ≡ 1)
    × (t'.pending ≡ 5 ∷ [])
stop_late_example = stop_late fired 5 4 [] refl five_not_zero refl

start_lost_run :
    (t' : Timer) × (steps (started 1 9 ∷ turn ∷ []) fired ≡ some t')
    × (t'.pending ≡ 5 ∷ [])
    × (t'.queued ≡ aborted 9 ∷ [])
start_lost_run = start_lost fired 5 4 1 9 [] refl five_not_zero refl

repeats_run :
    (t' : Timer) × (steps (periods 3) five ≡ some t')
    × (t'.runs ≡ 3)
    × (t'.pending ≡ 5 ∷ [])
    × (t'.queued ≡ [])
repeats_run = repeats 3 five 5 4 refl five_not_zero refl refl

one_wait_example :
    (t' : Timer) × (steps (started 1 9 ∷ expires ∷ started 2 0 ∷ turn ∷ []) five ≡ some t')
    × (t'.callback ≡ some 4)
    × (length t'.pending ≤ 1)
one_wait_example =
    one_wait (started 1 9 ∷ expires ∷ started 2 0 ∷ turn ∷ []) five 4 refl (omega arith)

abbrev two_objects : Heap
two_objects x = x == 1 || x == 2

abbrev owner : Members
owner = record { impl = 1; callback = 2 }

owner_owns : IsOwner owner two_objects
owner_owns = record {
  impl_alive = refl;
  impl_real = refl;
  callback_alive = λ p. refl;
  apart = refl;
}

destruct_twice_example :
    let (t1, t2) = move_from owner in
    (r : Members × Heap) × (destruct t1 two_objects ≡ some r)
    × (r.1 1 ≡ false)
    × (◌≡◌ {A = Bool} false false → r.1 2 ≡ false)
    × (destruct t2 r.1 ≡ none)
destruct_twice_example = destruct_twice owner two_objects owner_owns
