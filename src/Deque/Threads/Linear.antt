-- ===== src/Deque/Threads/Linear.antt =====
-- deque.cpp under a schedule, against a bounded queue that makes each call at once, at the step
-- that decides it.
use mathlib.Core.Path.{subst}
use engi_cs.Base.{
  ℕ, suc, ◌+◌, ◌^◌, ◌≤◌, ◌<◌, ◌≡◌, refl, List, [], ◌∷◌, length, ◌==◌, Bool-cases, inl, inr, update,
  arith,
}
use engi_cs.Deque.Threads.{
  Memory, Owner, Thief, Act, owner_step, begin_push, begin_pop, thief_step, System, Event,
  starts_push, starts_pop, owner_moves, thief_moves, exec, run, start,
}
use engi_cs.Deque.Threads.Inv.{limit, tasks, ThiefOk, ThiefOk-Keeps, Core, Spec}
use engi_cs.Deque.Threads.OwnerStep.{Good, owner_step-Good, begin_push-Good, begin_pop-Good}
use engi_cs.Deque.Threads.ThiefStep.{Stole, thief_step-Stole}

abbrev pub contents : System → List ℕ
contents s = tasks s.memory s.owner

-- The system after `n` steps.
pub record IsValid (n : ℕ) (s : System) : Type 0 where
  pub core : Core n s.memory s.owner
  pub thieves : (i : ℕ) → ThiefOk s.memory (limit s.memory s.owner) (s.thieves i)

-- What a step of the system keeps and does.
pub record Stepped (n : ℕ) (s : System) (r : Act × System) : Type 0 where
  pub valid : IsValid (suc n) r.1
  pub meaning : Spec s.memory.capacity (contents s) r.0 (contents r.1)
  pub same_capacity : r.1.memory.capacity ≡ s.memory.capacity

owner-Stepped :
    (n : ℕ) (s : System) (r : Act × Memory × Owner)
    → IsValid n s
    → Good n s.memory s.owner r
    → Stepped n s (r.0, record s { memory = r.1; owner = r.2 })
owner-Stepped n s r v g = record {
  valid = record {
    core = g.core;
    thieves = λ i.
        ThiefOk-Keeps s.memory (limit s.memory s.owner) r.1 (limit r.1 r.2) (s.thieves i) g.keeps
          (v.thieves i);
  };
  meaning = g.meaning;
  same_capacity = g.same_capacity;
}

thief-Stepped :
    (n : ℕ) (s : System) (i : ℕ) (r : Act × Memory × Thief)
    → IsValid n s
    → Stole n s.memory s.owner r
    → Stepped n s (r.0, record s { memory = r.1; thieves = update s.thieves i r.2 })
thief-Stepped n s i r v g = record {
  valid = record {
    core = g.core;
    thieves = λ j. elim (Bool-cases (j == i)) [
      | inl same ↦ rw same g.mine
      | inr other ↦ rw other (
          ThiefOk-Keeps s.memory (limit s.memory s.owner) r.1 (limit r.1 s.owner) (s.thieves j)
            g.keeps (v.thieves j))
    ];
  };
  meaning = g.meaning;
  same_capacity = g.same_capacity;
}

-- What a step of the system decides is what the bounded queue does, and the invariant is kept.
pub exec-Stepped :
    (n : ℕ) (s : System) (e : Event) → suc n < 2 ^ 64 → IsValid n s → Stepped n s (exec s e)
unfolding exec
exec-Stepped n s (starts_push ptr) few v =
    owner-Stepped n s (begin_push s.memory s.owner ptr) v
      (begin_push-Good n s.memory few s.owner ptr v.core)
exec-Stepped n s starts_pop few v =
    owner-Stepped n s (begin_pop s.memory s.owner) v (begin_pop-Good n s.memory few s.owner v.core)
exec-Stepped n s owner_moves few v =
    owner-Stepped n s (owner_step s.memory s.owner) v
      (owner_step-Good n s.memory few s.owner v.core)
exec-Stepped n s (thief_moves i spurious) few v =
    thief-Stepped n s i (thief_step s.memory spurious (s.thieves i)) v
      (thief_step-Stole n s.memory s.owner few v.core spurious (s.thieves i) (v.thieves i))

-- A bounded queue of `n` tasks goes through a list of decisions.
abbrev pub Runs : ℕ → List ℕ → List Act → List ℕ → Type 0
Runs n before [] after = after ≡ before
Runs n before (a ∷ acts) after =
    (middle : List ℕ) × Spec n before a middle × Runs n middle acts after

run-Runs :
    (es : List Event) (n : ℕ) (s : System)
    → n + length es < 2 ^ 64
    → IsValid n s
    → Runs s.memory.capacity (contents s) (run s es).0 (contents (run s es).1)
unfolding run
run-Runs [] n s few v = refl
run-Runs (e ∷ es) n s few v = (
  contents (exec s e).1,
  st.meaning,
  subst
      (λ k.
        Runs k (contents (exec s e).1) (run (exec s e).1 es).0 (contents (run (exec s e).1 es).1))
      st.same_capacity (run-Runs es (suc n) (exec s e).1 (omega arith) st.valid),
)
  where
    st : Stepped n s (exec s e)
    st = exec-Stepped n s e (omega arith) v

start-IsValid :
    (storage : List ℕ) (capacity : ℕ)
    → 0 < capacity
    → capacity ≤ length storage
    → IsValid 0 (start storage capacity)
start-IsValid storage capacity pos fits = record {
  core = record {
    fits = fits;
    positive = pos;
    lower = omega arith;
    upper = omega arith;
    few = omega arith;
    owner = tt;
  };
  thieves = λ i. tt;
}

-- From a deque just initialized, with any number of thieves that see one memory and under any
-- schedule of less than 2 ^ 64 steps, the decisions of `Push`, `Pop` and `Steal` are those of a bounded queue that goes
-- through them one at a time: `Push` is accepted exactly if there is room, `Pop` takes the last
-- task or finds the queue empty, and a `Steal` that succeeds takes the first. The queue ends with
-- the tasks that the buffer holds.
pub run_linearizable :
    (storage : List ℕ) (capacity : ℕ) (es : List Event)
    → 0 < capacity
    → capacity ≤ length storage
    → length es < 2 ^ 64
    → let (acts, s) = run (start storage capacity) es in Runs capacity [] acts (contents s)
run_linearizable storage capacity es pos fits few =
    run-Runs es 0 (start storage capacity) (omega arith) (start-IsValid storage capacity pos fits)
