-- ===== src/Signal/Tests.antt =====
-- Signals at concrete inputs, with a move that leaves the empty callback 0.
use engi_cs.Base.{ℕ, ◌≡◌, refl, true, false, List, [], ◌∷◌, ◌++◌, add64, arith}
use engi_cs.Signal.{Signal, has}
use engi_cs.Signal.Threads.{
  idle, add_started, added, remove_started, removed, step, Event, moves, adds, exec, run, alone,
}
use engi_cs.Signal.Atomic.{replay, calls_atomic}
use engi_cs.Signal.Calls.{attempts, iterate, add_lem, remove-add}

abbrev emptied : ℕ → ℕ
emptied cb = 0

abbrev one_listener : Signal
one_listener = record { version = 4; callbacks = (2, 50) ∷ []; next_id = 3 }

-- two threads add at the same time: the second loads before the first has stored, and tries again
abbrev contended : List (Event emptied)
contended =
    adds 0 60
    ∷ adds 1 70
    ∷ moves 0 false
    ∷ moves 1 false
    ∷ moves 0 false
    ∷ moves 1 false
    ∷ moves 0 false
    ∷ moves 1 false
    ∷ moves 1 false
    ∷ moves 1 false
    ∷ []

contended_callbacks :
    (run emptied
      (record { signal = one_listener; callers = λ i. idle })
      contended).1.signal.callbacks
    ≡ (2, 50) ∷ (3, 60) ∷ (4, 0) ∷ []
unfolding run exec step
contended_callbacks = refl

calls_atomic_example :
    let (fs, s) = run emptied (record { signal = one_listener; callers = λ i. idle }) contended in
    s.signal.callbacks ≡ replay fs one_listener.callbacks
calls_atomic_example = calls_atomic emptied contended one_listener

add_lem_run :
    let (s', c) = alone emptied one_listener (add_started 60) (false ∷ attempts 1) in
    (c ≡ added 3)
    × (s'.next_id ≡ add64 3 1)
    × (s'.callbacks ≡ one_listener.callbacks ++ ((3, iterate emptied 1 60) ∷ []))
add_lem_run = add_lem emptied 1 60 one_listener

new_token : has one_listener.next_id one_listener.callbacks ≡ false
unfolding has
new_token = refl

remove-add_run :
    let (s', _) = alone emptied one_listener (add_started 60) (false ∷ attempts 0) in
    let (s'', c) = alone emptied s' (remove_started 3) (false ∷ false ∷ []) in
    (c ≡ removed true) × (s''.callbacks ≡ one_listener.callbacks)
remove-add_run = remove-add emptied 0 60 one_listener new_token (omega arith)
