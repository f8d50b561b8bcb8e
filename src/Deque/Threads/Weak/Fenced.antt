-- ===== src/Deque/Threads/Weak/Fenced.antt =====
-- deque.cpp: executions in which no store waits.
use engi_cs.Base.{
  ℕ, ◌+◌, ◌^◌, ◌≡◌, ◌<◌, ◌≤◌, refl, sym, ap, ap₂, ◌∙◌, List, [], ◌∷◌, length, count, Bool-cases,
  inl, inr, ltb, leb, ◌==◌, sub64, arith,
}
use mathlib.Core.Path.{subst}
use engi_cs.Deque.Threads.{
  Memory, Owner, push_loaded, push_room, push_written, pop_loaded, pop_lowered, pop_restore,
  pop_read, pop_race, pop_finish, Act, quiet, owner_step, begin_push, begin_pop, System, Event,
  starts_push, starts_pop, owner_moves, thief_moves, exec, run, start,
}
use engi_cs.Deque.Threads.Linear.{contents, Runs, run_linearizable}
use engi_cs.Deque.Threads.Conserve.{put_in, taken_out, Runs-count}
use engi_cs.Deque.Threads.Weak.{
  view, stores_of, WeakSystem, weak_owner, drain, WeakEvent, moves, drains, weak_exec, weak_run,
}

-- Each step is followed by what drains the store that it may be.
abbrev pub fenced : List Event → List WeakEvent
fenced [] = []
fenced (e ∷ es) = moves e ∷ drains ∷ fenced es

abbrev pub with_none : System → WeakSystem
with_none s = record { memory = s.memory; stores = []; owner = s.owner; thieves = s.thieves }

-- One step and the drain behind it.
Drained : System → Act × WeakSystem → Act × System → Type 0
Drained s w r = (w.0 ≡ r.0) × (drain w.1 w.1.stores ≡ with_none r.1)

owner-Drained :
    (s : System) (o : Owner)
    → let r = owner_step s.memory o in
      Drained s
        (weak_owner (record (with_none s) { owner = o }) o)
        (r.0, record s { memory = r.1; owner = r.2 })
unfolding Drained weak_owner owner_step view stores_of drain
owner-Drained s Owner.idle = (refl, refl)
owner-Drained s (push_loaded ptr b) =
    elim (Bool-cases (leb s.memory.capacity (sub64 b s.memory.top))) [
      | inl full ↦ (refl, rw full refl)
      | inr room ↦ (refl, rw room refl)
    ]
owner-Drained s (push_room ptr b) = (refl, refl)
owner-Drained s (push_written ptr b) = (refl, refl)
owner-Drained s (pop_loaded b) = (refl, refl)
owner-Drained s (pop_lowered b) = elim (Bool-cases (ltb b s.memory.top)) [
  | inl below ↦ (refl, rw below refl)
  | inr above ↦ (refl, rw above refl)
]
owner-Drained s (pop_restore t) = (refl, refl)
owner-Drained s (pop_read b t) = elim (Bool-cases (ltb t b)) [
  | inl more ↦ (refl, rw more refl)
  | inr last ↦ (refl, rw last refl)
]
owner-Drained s (pop_race t task) = (refl, refl)
owner-Drained s (pop_finish t) = (refl, refl)

begin_push-memory : (m : Memory) (o : Owner) (ptr : ℕ) → (begin_push m o ptr).1 ≡ m
unfolding begin_push
begin_push-memory m Owner.idle ptr = refl
begin_push-memory m (push_loaded p b) ptr = refl
begin_push-memory m (push_room p b) ptr = refl
begin_push-memory m (push_written p b) ptr = refl
begin_push-memory m (pop_loaded b) ptr = refl
begin_push-memory m (pop_lowered b) ptr = refl
begin_push-memory m (pop_restore t) ptr = refl
begin_push-memory m (pop_read b t) ptr = refl
begin_push-memory m (pop_race t task) ptr = refl
begin_push-memory m (pop_finish t) ptr = refl

begin_pop-memory : (m : Memory) (o : Owner) → (begin_pop m o).1 ≡ m
unfolding begin_pop
begin_pop-memory m Owner.idle = elim (Bool-cases (m.bottom == 0)) [
  | inl empty ↦ rw empty refl
  | inr some_task ↦ rw some_task refl
]
begin_pop-memory m (push_loaded p b) = refl
begin_pop-memory m (push_room p b) = refl
begin_pop-memory m (push_written p b) = refl
begin_pop-memory m (pop_loaded b) = refl
begin_pop-memory m (pop_lowered b) = refl
begin_pop-memory m (pop_restore t) = refl
begin_pop-memory m (pop_read b t) = refl
begin_pop-memory m (pop_race t task) = refl
begin_pop-memory m (pop_finish t) = refl

exec-Drained : (s : System) (e : Event) → Drained s (weak_exec (with_none s) (moves e)) (exec s e)
unfolding Drained weak_exec exec view drain
exec-Drained s (starts_push ptr) = (
  refl,
  ap (λ m. record (with_none s) { memory = m; owner = (begin_push s.memory s.owner ptr).2 })
      (sym (begin_push-memory s.memory s.owner ptr)),
)
exec-Drained s starts_pop = (
  refl,
  ap (λ m. record (with_none s) { memory = m; owner = (begin_pop s.memory s.owner).2 })
      (sym (begin_pop-memory s.memory s.owner)),
)
exec-Drained s owner_moves = owner-Drained s s.owner
exec-Drained s (thief_moves i spurious) = (refl, refl)

-- The decisions with a step that decides nothing behind each.
abbrev spaced : List Act → List Act
spaced [] = []
spaced (a ∷ acts) = a ∷ quiet ∷ spaced acts

run-fenced :
    (es : List Event) (s : System)
    → ((weak_run (with_none s) (fenced es)).0 ≡ spaced (run s es).0)
      × ((weak_run (with_none s) (fenced es)).1 ≡ with_none (run s es).1)
unfolding weak_run run Drained
run-fenced [] s = (refl, refl)
run-fenced (e ∷ es) s =
    let w = weak_exec (with_none s) (moves e) in
    let (same, drained) = exec-Drained s e in
    let (acts, after) = run-fenced es (exec s e).1 in
    (
      ap₂ (λ a acts'. a ∷ quiet ∷ acts') same (ap (λ v. (weak_run v (fenced es)).0) drained ∙ acts),
      ap (λ v. (weak_run v (fenced es)).1) drained ∙ after,
    )

spaced-Runs :
    (n : ℕ) (before : List ℕ) (acts : List Act) (after : List ℕ)
    → Runs n before acts after
    → Runs n before (spaced acts) after
spaced-Runs n before [] after r = r
spaced-Runs n before (a ∷ acts) after (middle, sp, r) =
    (middle, sp, (middle, refl, spaced-Runs n middle acts after r))

-- The memory and the calls of a system, without the stores that wait.
abbrev pub shared : WeakSystem → System
shared w = record { memory = w.memory; owner = w.owner; thieves = w.thieves }

-- From a deque just initialized, with any number of thieves and under any schedule of less than
-- 2 ^ 64 steps in which no store of the owner waits, but reaches the memory before the next step of
-- any thread: the decisions of `Push`, `Pop` and `Steal` are those of a bounded queue that goes through
-- them one at a time, and it ends with the tasks that the buffer holds. `Push` is accepted exactly if
-- there is room, `Pop` takes the last task or finds the queue empty, and a `Steal` that succeeds takes
-- the first. Each task was accepted as often as it was returned and still is in the deque.
pub fenced_linearizable :
    (storage : List ℕ) (capacity : ℕ) (es : List Event)
    → 0 < capacity
    → capacity ≤ length storage
    → length es < 2 ^ 64
    → let (acts, w) = weak_run (with_none (start storage capacity)) (fenced es) in
      Runs capacity [] acts (contents (shared w))
      × ((x : ℕ) → put_in x acts ≡ taken_out x acts + count x (contents (shared w)))
fenced_linearizable storage capacity es pos fits few =
    let s = start storage capacity in
    let r = run s es in
    let (same, after) = run-fenced es s in
    let runs =
      spaced-Runs capacity [] r.0 (contents r.1)
        (run_linearizable storage capacity es pos fits few) in
    let acts = (weak_run (with_none s) (fenced es)).0 in
    let w = (weak_run (with_none s) (fenced es)).1 in
    let runs' : Runs capacity [] acts (contents (shared w)) =
      subst (λ v. Runs capacity [] acts (contents (shared v))) (sym after)
        (subst (λ as'. Runs capacity [] as' (contents r.1)) (sym same) runs) in
    (runs', λ x. omega (arith, Runs-count x capacity [] acts (contents (shared w)) runs'))
