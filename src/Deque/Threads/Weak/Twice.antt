-- ===== src/Deque/Threads/Weak/Twice.antt =====
-- deque.cpp: a task that `Pop` and `Steal` both return.
use engi_cs.Base.{
  ℕ, ◌+◌, ◌-◌, ◌%◌, ◌^◌, ◌≡◌, ◌<◌, refl, ap, ap₂, ◌∙◌, true, false, List, [], ◌∷◌, get_or, ltb, leb,
  ◌==◌, add64, update, arith,
}
use engi_cs.Deque.Threads.{
  pop_loaded, pop_lowered, pop_read, Memory, Owner, Thief, got_top, got_bottom, got_task, Act,
  quiet, took, stole, owner_step, begin_pop, thief_step, starts_pop, owner_moves, thief_moves,
}
use engi_cs.Deque.Threads.Weak.{
  to_bottom, view, stores_of, WeakSystem, weak_owner, WeakEvent, moves, weak_exec, weak_run,
}

-- `Pop` up to its return, while its store of `bottom` waits, and then two calls of `Steal` of thief `i`.
abbrev pub pop_then_steals : ℕ → List WeakEvent
pop_then_steals i =
    let thief = moves (thief_moves i false) in
    moves starts_pop
    ∷ moves owner_moves
    ∷ moves owner_moves
    ∷ moves owner_moves
    ∷ thief
    ∷ thief
    ∷ thief
    ∷ thief
    ∷ thief
    ∷ thief
    ∷ thief
    ∷ thief
    ∷ []

-- The results of calls among the decisions of steps.
abbrev pub results : List Act → List Act
results [] = []
results (quiet ∷ acts) = results acts
results (a ∷ acts) = a ∷ results acts

-- The task at a place of the deque.
abbrev pub task_at : Memory → ℕ → ℕ
task_at m k = get_or m.buffer (k % m.capacity) 0

-- A run by its first step.
one_step :
    (s : WeakSystem) (e : WeakEvent) (es : List WeakEvent) (a : Act) (s' : WeakSystem)
    → weak_exec s e ≡ (a, s')
    → (weak_run s (e ∷ es)).0 ≡ a ∷ (weak_run s' es).0
unfolding weak_run
one_step s e es a s' h = ap (λ r. r.0 ∷ (weak_run r.1 es).0) h

no_step : (s : WeakSystem) → (weak_run s []).0 ≡ []
unfolding weak_run
no_step s = refl

module _ (i : ℕ) where
  abbrev thief : WeakEvent
  thief = moves (thief_moves i false)

  at_self : (thieves : ℕ → Thief) (v : Thief) → update thieves i v i ≡ v
  at_self thieves v = ground arith

  -- The thief's next access, by where it stands.
  thief_exec :
      (s : WeakSystem) (v : Thief)
      → s.thieves i ≡ v
      → weak_exec s thief ≡ (
          let r = thief_step s.memory false v in
          (r.0, record s { memory = r.1; thieves = update s.thieves i r.2 }))
  unfolding weak_exec
  thief_exec s v e =
      ap
        (λ u.
          let r = thief_step s.memory false u in
          (r.0, record s { memory = r.1; thieves = update s.thieves i r.2 }))
        e

  -- A call of `Steal` that nothing comes between.
  steals :
      (s : WeakSystem) (es : List WeakEvent)
      → s.thieves i ≡ Thief.idle
      → s.memory.top < s.memory.bottom
      → (thieves : ℕ → Thief) × (thieves i ≡ Thief.idle)
        × ((weak_run s (thief ∷ thief ∷ thief ∷ thief ∷ es)).0
            ≡ quiet
              ∷ quiet
              ∷ quiet
              ∷ stole (task_at s.memory s.memory.top)
              ∷ (weak_run
                  (record s {
                    memory = record s.memory { top = add64 s.memory.top 1 };
                    thieves = thieves;
                  })
                  es).0)
  unfolding thief_step
  steals s es idle less =
      let t = s.memory.top in
      let task = task_at s.memory t in
      let f1 = update s.thieves i (got_top t) in
      let f2 = update f1 i (got_bottom t) in
      let f3 = update f2 i (got_task t task) in
      let f4 = update f3 i Thief.idle in
      let s1 : WeakSystem = record s { thieves = f1 } in
      let s2 : WeakSystem = record s { thieves = f2 } in
      let s3 : WeakSystem = record s { thieves = f3 } in
      let s4 : WeakSystem = record s {
        memory = record s.memory { top = add64 t 1 };
        thieves = f4;
      } in
      let above : leb s.memory.bottom t ≡ false = ground arith in
      let still : (t == t) ≡ true = ground arith in
      (
        f4,
        at_self f3 Thief.idle,
        one_step s thief (thief ∷ thief ∷ thief ∷ es) quiet s1 (thief_exec s Thief.idle idle)
            ∙ ap (λ acts. quiet ∷ acts)
                (one_step s1 thief (thief ∷ thief ∷ es) quiet s2
                    (thief_exec s1 (got_top t) (at_self s.thieves (got_top t)) ∙ rw above refl)
                  ∙ ap (λ acts. quiet ∷ acts)
                      (one_step s2 thief (thief ∷ es) quiet s3
                          (thief_exec s2 (got_bottom t) (at_self f1 (got_bottom t)))
                        ∙ ap (λ acts. quiet ∷ acts)
                            (one_step s3 thief es (stole task) s4 (
                              thief_exec s3 (got_task t task) (at_self f2 (got_task t task))
                              ∙ rw still refl)))),
      )

-- A deque between calls of its owner, with no store that waits.
abbrev pub at_rest : Memory → (ℕ → Thief) → WeakSystem
at_rest m thieves = record { memory = m; stores = []; owner = Owner.idle; thieves = thieves }

-- `Pop` of two tasks, while its store waits.
pops :
    (m : Memory) (thieves : ℕ → Thief) (es : List WeakEvent)
    → m.bottom ≡ m.top + 2
    → (weak_run
        (at_rest m thieves)
        (moves starts_pop ∷ moves owner_moves ∷ moves owner_moves ∷ moves owner_moves ∷ es)).0
      ≡ quiet
        ∷ quiet
        ∷ quiet
        ∷ took (task_at m (m.bottom - 1))
        ∷ (weak_run (record (at_rest m thieves) { stores = to_bottom (m.bottom - 1) ∷ [] }) es).0
unfolding weak_exec weak_owner view stores_of owner_step begin_pop
pops m thieves es two =
    let b = m.bottom - 1 in
    let s = at_rest m thieves in
    let waits = to_bottom b ∷ [] in
    let s1 : WeakSystem = record s { owner = pop_loaded m.bottom } in
    let s2 : WeakSystem = record s { stores = waits; owner = pop_lowered b } in
    let s3 : WeakSystem = record s { stores = waits; owner = pop_read b m.top } in
    let s4 : WeakSystem = record s { stores = waits } in
    let some_task : (m.bottom == 0) ≡ false = ground arith in
    let not_below : ltb b m.top ≡ false = ground arith in
    let above : ltb m.top b ≡ true = ground arith in
    one_step s (moves starts_pop) (moves owner_moves ∷ moves owner_moves ∷ moves owner_moves ∷ es)
      quiet s1 (rw some_task refl)
    ∙ ap (λ acts. quiet ∷ acts)
        (one_step s1 (moves owner_moves) (moves owner_moves ∷ moves owner_moves ∷ es) quiet s2 refl
          ∙ ap (λ acts. quiet ∷ acts)
              (one_step s2 (moves owner_moves) (moves owner_moves ∷ es) quiet s3 (rw not_below refl)
                ∙ ap (λ acts. quiet ∷ acts)
                    (one_step s3 (moves owner_moves) es (took (task_at m b)) s4 (rw above refl))))

-- A deque with two tasks and a store buffer for its owner, while no call of the owner or of thief `i`
-- is under way: the owner calls `Pop`, which returns the last task while its store of `bottom` waits,
-- and the thief then calls `Steal` twice, sees the old `bottom`, and gets the first task and the last
-- one again. The last task is handed out twice, whatever the deque and the other thieves hold.
pub handed_out_twice :
    (m : Memory) (thieves : ℕ → Thief) (i : ℕ)
    → thieves i ≡ Thief.idle
    → m.bottom ≡ m.top + 2
    → m.bottom < 2 ^ 64
    → results (weak_run (at_rest m thieves) (pop_then_steals i)).0
      ≡ took (task_at m (m.top + 1)) ∷ stole (task_at m m.top) ∷ stole (task_at m (m.top + 1)) ∷ []
handed_out_twice m thieves i idle two small =
    let thief = moves (thief_moves i false) in
    let popped : WeakSystem = record (at_rest m thieves) {
      stores = to_bottom (m.bottom - 1) ∷ [];
    } in
    let m' : Memory = record m { top = add64 m.top 1 } in
    let (f, idle', first) =
      steals i popped (thief ∷ thief ∷ thief ∷ thief ∷ []) idle (omega arith) in
    let after : WeakSystem = record popped { memory = m'; thieves = f } in
    let (f', idle'', second) = steals i after [] idle' (omega arith) in
    let last : m.bottom - 1 ≡ m.top + 1 = omega arith in
    let next : add64 m.top 1 ≡ m.top + 1 = omega arith in
    ap results
      (pops m thieves (thief ∷ thief ∷ thief ∷ thief ∷ thief ∷ thief ∷ thief ∷ thief ∷ []) two)
    ∙ ap (λ acts. took (task_at m (m.bottom - 1)) ∷ results acts) first
    ∙ ap (λ acts. took (task_at m (m.bottom - 1)) ∷ stole (task_at m m.top) ∷ results acts) second
    ∙ ap
        (λ acts.
          took (task_at m (m.bottom - 1))
          ∷ stole (task_at m m.top)
          ∷ stole (task_at m m'.top)
          ∷ results acts)
        (no_step _)
    ∙ ap₂ (λ k l. took (task_at m k) ∷ stole (task_at m m.top) ∷ stole (task_at m l) ∷ []) last next
