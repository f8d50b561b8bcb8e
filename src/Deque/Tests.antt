-- ===== src/Deque/Tests.antt =====
-- The deque of deque.cpp at concrete inputs.
use engi_cs.Base.{ℕ, ◌+◌, ◌≡◌, refl, Bool, true, false, some, List, [], ◌∷◌, ◌⊎◌, count, arith}
use engi_cs.Deque.{Wsq, push, pop, steal}
use engi_cs.Deque.Refine.{
  contents, IsValid, spec_push, Pops, push_refines, pop_refines, steal_refines,
}
use engi_cs.Deque.Threads.{
  Memory, Thief, stole, quiet, accepted, took, owner_step, begin_push, begin_pop, thief_step, Event,
  starts_push, starts_pop, owner_moves, thief_moves, run, start,
}
use engi_cs.Deque.Threads.Linear.{Runs, run_linearizable}
use engi_cs.Deque.Threads.Linear
use engi_cs.Deque.Threads.Weak.{weak_run}
use engi_cs.Deque.Threads.Weak.Twice.{pop_then_steals, results, at_rest, handed_out_twice}
use engi_cs.Deque.Threads.Weak.Fenced.{with_none, fenced, shared, fenced_linearizable}
use engi_cs.Deque.Threads.Conserve.{put_in, taken_out, tasks_conserved}

-- tasks 8 and 9, round the end of the buffer
abbrev wrapped : Wsq
wrapped = record {
  resource = some 1;
  buffer = some (9 ∷ 7 ∷ 8 ∷ []);
  capacity = 3;
  top = 2;
  bottom = 4;
}

abbrev wrapped-IsValid : IsValid wrapped
wrapped-IsValid = record {
  storage = 9 ∷ 7 ∷ 8 ∷ [];
  allocated = refl;
  fits = omega arith;
  positive = omega arith;
  ordered = omega arith;
  bounded = omega arith;
  small = omega arith;
}

push_refines_example :
    (ok : Bool) × (r : Wsq) × (push wrapped 5 ≡ some (ok, r))
    × IsValid r
    × ((ok, contents r) ≡ spec_push 3 (8 ∷ 9 ∷ []) 5)
push_refines_example = push_refines 5 wrapped-IsValid (omega arith)

pop_refines_example :
    (task : ℕ) × (r : Wsq) × (pop wrapped ≡ some (task, r))
    × IsValid r
    × Pops (8 ∷ 9 ∷ []) task (contents r)
pop_refines_example = pop_refines wrapped-IsValid

steal_refines_example :
    (task : ℕ) × (r : Wsq) × (steal wrapped false ≡ some (task, r))
    × IsValid r
    × ((contents wrapped ≡ []) × (task ≡ 0) × (contents r ≡ [])
        ⊎ (false ≡ true) × (task ≡ 0) × (contents r ≡ contents wrapped)
        ⊎ (false ≡ false) × (contents wrapped ≡ task ∷ contents r))
steal_refines_example = steal_refines false wrapped-IsValid

push_full : (push (record wrapped { bottom = 5 }) 4 ≡ some (false, record wrapped { bottom = 5 }))
unfolding push
push_full = refl

-- One task: a thief has read it when the owner pops it, and loses the race.
abbrev contended : List Event
contended =
    starts_push 7
    ∷ owner_moves
    ∷ owner_moves
    ∷ owner_moves
    ∷ thief_moves 0 false
    ∷ thief_moves 0 false
    ∷ thief_moves 0 false
    ∷ starts_pop
    ∷ owner_moves
    ∷ owner_moves
    ∷ owner_moves
    ∷ owner_moves
    ∷ thief_moves 0 false
    ∷ owner_moves
    ∷ []

contended_result :
    (run (start (0 ∷ 0 ∷ []) 2) contended).0
    ≡ quiet
      ∷ quiet
      ∷ quiet
      ∷ accepted 7
      ∷ quiet
      ∷ quiet
      ∷ quiet
      ∷ quiet
      ∷ quiet
      ∷ quiet
      ∷ quiet
      ∷ took 7
      ∷ quiet
      ∷ quiet
      ∷ []
unfolding run owner_step begin_push begin_pop thief_step
contended_result = refl

run_linearizable_run :
    let (acts, s) = run (start (0 ∷ 0 ∷ []) 2) contended in Runs 2 [] acts (Linear.contents s)
run_linearizable_run =
    run_linearizable (0 ∷ 0 ∷ []) 2 contended (omega arith) (omega arith) (omega arith)

tasks_conserved_run :
    let (acts, s) = run (start (0 ∷ 0 ∷ []) 2) contended in
    put_in 7 acts ≡ taken_out 7 acts + count 7 (Linear.contents s)
tasks_conserved_run =
    tasks_conserved (0 ∷ 0 ∷ []) 2 contended 7 (omega arith) (omega arith) (omega arith)

-- Tasks 5 and 6, the thieves idle.
abbrev two_tasks : Memory
two_tasks = record { buffer = 5 ∷ 6 ∷ []; capacity = 2; top = 0; bottom = 2 }

handed_out_twice_example :
    results (weak_run (at_rest two_tasks (λ _. Thief.idle)) (pop_then_steals 3)).0
    ≡ took 6 ∷ stole 5 ∷ stole 6 ∷ []
handed_out_twice_example = handed_out_twice two_tasks (λ _. Thief.idle) 3 refl refl (omega arith)

fenced_linearizable_example :
    let (acts, w) = weak_run (with_none (start (0 ∷ 0 ∷ []) 2)) (fenced contended) in
    Runs 2 [] acts (Linear.contents (shared w))
    × ((x : ℕ) → put_in x acts ≡ taken_out x acts + count x (Linear.contents (shared w)))
fenced_linearizable_example =
    fenced_linearizable (0 ∷ 0 ∷ []) 2 contended (omega arith) (omega arith) (omega arith)
