-- ===== src/Deque/Threads/Conserve.antt =====
-- deque.cpp under a schedule: the counts of tasks put in and taken out.
use engi_cs.Base.{
  ℕ, ◌+◌, ◌^◌, ◌≤◌, ◌<◌, ◌≡◌, ap, List, [], ◌∷◌, length, count, count-append, ◌==◌, if◌then◌else◌,
  arith,
}
use engi_cs.Deque.Threads.{
  Act, quiet, accepted, refused, took, stole, found_none, Event, run, start,
}
use engi_cs.Deque.Threads.Linear.{contents, Runs, run_linearizable}

-- how often a task was accepted by `Push`
abbrev pub put_in : ℕ → List Act → ℕ
put_in x [] = 0
put_in x (accepted y ∷ acts) = (if x == y then 1 else 0) + put_in x acts
put_in x (a ∷ acts) = put_in x acts

-- how often a task was returned by `Pop` or by `Steal`
abbrev pub taken_out : ℕ → List Act → ℕ
taken_out x [] = 0
taken_out x (took y ∷ acts) = (if x == y then 1 else 0) + taken_out x acts
taken_out x (stole y ∷ acts) = (if x == y then 1 else 0) + taken_out x acts
taken_out x (a ∷ acts) = taken_out x acts

pub Runs-count :
    (x n : ℕ) (before : List ℕ) (acts : List Act) (after : List ℕ)
    → Runs n before acts after
    → count x before + put_in x acts ≡ taken_out x acts + count x after
Runs-count x n before [] after e = rw e (omega arith)
Runs-count x n before (quiet ∷ acts) after (mid, sp, r) =
    omega (arith, ap (count x) sp, Runs-count x n mid acts after r)
Runs-count x n before (accepted y ∷ acts) after (mid, sp, r) =
    omega
      (arith, ap (count x) sp.1, count-append x before (y ∷ []), Runs-count x n mid acts after r)
Runs-count x n before (refused y ∷ acts) after (mid, sp, r) =
    omega (arith, ap (count x) sp.1, Runs-count x n mid acts after r)
Runs-count x n before (took y ∷ acts) after (mid, sp, r) =
    omega (arith, ap (count x) sp, count-append x mid (y ∷ []), Runs-count x n mid acts after r)
Runs-count x n before (stole y ∷ acts) after (mid, sp, r) =
    omega (arith, ap (count x) sp, Runs-count x n mid acts after r)
Runs-count x n before (found_none ∷ acts) after (mid, sp, r) =
    omega (arith, ap (count x) sp.0, ap (count x) sp.1, Runs-count x n mid acts after r)

-- From a deque just initialized, with any number of thieves that see one memory and under any
-- schedule of less than 2 ^ 64 steps, no task is lost and none is handed out twice: each task was accepted
-- by `Push` as often as it was returned by `Pop` or `Steal` and still is in the deque.
pub tasks_conserved :
    (storage : List ℕ) (capacity : ℕ) (es : List Event) (x : ℕ)
    → 0 < capacity
    → capacity ≤ length storage
    → length es < 2 ^ 64
    → let (acts, s) = run (start storage capacity) es in
      put_in x acts ≡ taken_out x acts + count x (contents s)
tasks_conserved storage capacity es x pos fits few =
    let (acts, s) = run (start storage capacity) es in
    omega (
      arith,
      Runs-count x capacity [] acts (contents s)
          (run_linearizable storage capacity es pos fits few),
    )
