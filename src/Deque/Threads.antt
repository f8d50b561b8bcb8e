-- ===== src/Deque/Threads.antt =====
-- deque.cpp with one owner thread, which calls `Push` and `Pop`, and any number of thieves, which
-- call `Steal`: each step makes one access to the shared memory, and steps interleave in any
-- order. The steps are given on a memory that a thread sees. In `run` all threads see the same one,
-- at once; the release stores and acquire loads of the code allow more, which Weak adds: there the
-- stores of the owner wait in a buffer.
pub mod Inv
pub mod OwnerStep
pub mod ThiefStep
pub mod Linear
pub mod Conserve
pub mod Weak
use engi_cs.Base.{
  ℕ, ◌-◌, ◌%◌, Bool, true, false, List, [], ◌∷◌, get_or, set, ltb, leb, ◌==◌, if◌then◌else◌, not,
  ◌&&◌, add64, sub64, update,
}

-- The fields of `WSQImpl` after `Initialize`, with the `capacity` slots of `buffer`.
pub record Memory : Type 0 where
  pub buffer : List ℕ
  pub capacity : ℕ
  pub top : ℕ
  pub bottom : ℕ

-- Where the owner stands, with the locals `b`, `t`, `task` that are live there.
pub data Owner : Type 0 where
  idle : Owner
  push_loaded : (ptr b : ℕ) → Owner  -- has loaded `bottom`
  push_room : (ptr b : ℕ) → Owner  -- has loaded `top`, and there is room
  push_written : (ptr b : ℕ) → Owner  -- has written the slot
  pop_loaded : (b : ℕ) → Owner  -- has loaded `bottom`, which is not 0
  pop_lowered : (b : ℕ) → Owner  -- has stored `b = bottom - 1`
  pop_restore : (t : ℕ) → Owner  -- has loaded `top`, above `b`
  pop_read : (b t : ℕ) → Owner  -- has loaded `top`, not above `b`
  pop_race : (t task : ℕ) → Owner  -- `b == t`, before the compare-exchange
  pop_finish : (t : ℕ) → Owner  -- after the compare-exchange

-- Where a thief stands in `Steal`.
pub data Thief : Type 0 where
  idle : Thief
  got_top : (t : ℕ) → Thief
  got_bottom : (t : ℕ) → Thief  -- has loaded `bottom`, above `t`
  got_task : (t task : ℕ) → Thief

-- What a step decides. `accepted` and `refused` are the results of `Push`, `took` and
-- `found_none` (a null pointer) those of `Pop`, `stole` that of a `Steal` that succeeds; they
-- stand at the step from which on the result is certain.
pub data Act : Type 0 where
  quiet : Act
  accepted refused took stole : ℕ → Act
  found_none : Act

-- The owner's next access. `Push` and `Pop` begin by `begin_push` and `begin_pop`.
unfoldable pub owner_step : Memory → Owner → Act × Memory × Owner
owner_step m Owner.idle = (quiet, m, Owner.idle)
owner_step m (push_loaded ptr b) =
    if leb m.capacity (sub64 b m.top)
    then (refused ptr, m, Owner.idle)
    else (quiet, m, push_room ptr b)
owner_step m (push_room ptr b) =
    (quiet, record m { buffer = set m.buffer (b % m.capacity) ptr }, push_written ptr b)
owner_step m (push_written ptr b) = (accepted ptr, record m { bottom = add64 b 1 }, Owner.idle)
owner_step m (pop_loaded b) = (quiet, record m { bottom = b - 1 }, pop_lowered (b - 1))
owner_step m (pop_lowered b) =
    if ltb b m.top then (found_none, m, pop_restore m.top) else (quiet, m, pop_read b m.top)
owner_step m (pop_restore t) = (quiet, record m { bottom = t }, Owner.idle)
owner_step m (pop_read b t) =
    let task = get_or m.buffer (b % m.capacity) 0 in
    if ltb t b then (took task, m, Owner.idle) else (quiet, m, pop_race t task)
owner_step m (pop_race t task) =
    if m.top == t
    then (took task, record m { top = add64 t 1 }, pop_finish t)
    else (found_none, m, pop_finish t)
owner_step m (pop_finish t) = (quiet, record m { bottom = add64 t 1 }, Owner.idle)

-- A call can begin only when the one before has returned.
unfoldable pub begin_push : Memory → Owner → ℕ → Act × Memory × Owner
begin_push m Owner.idle ptr = (quiet, m, push_loaded ptr m.bottom)
begin_push m o ptr = (quiet, m, o)

unfoldable pub begin_pop : Memory → Owner → Act × Memory × Owner
begin_pop m Owner.idle =
    if m.bottom == 0 then (found_none, m, Owner.idle) else (quiet, m, pop_loaded m.bottom)
begin_pop m o = (quiet, m, o)

-- A thief's next access; `spurious` is a failure of `compare_exchange_weak` with no cause.
unfoldable pub thief_step : Memory → Bool → Thief → Act × Memory × Thief
thief_step m spurious Thief.idle = (quiet, m, got_top m.top)
thief_step m spurious (got_top t) =
    if leb m.bottom t then (quiet, m, Thief.idle) else (quiet, m, got_bottom t)
thief_step m spurious (got_bottom t) = (quiet, m, got_task t (get_or m.buffer (t % m.capacity) 0))
thief_step m spurious (got_task t task) =
    if not spurious && m.top == t
    then (stole task, record m { top = add64 t 1 }, Thief.idle)
    else (quiet, m, Thief.idle)

pub record System : Type 0 where
  pub memory : Memory
  pub owner : Owner
  pub thieves : ℕ → Thief

-- The scheduler's choice of who moves next.
pub data Event : Type 0 where
  starts_push : ℕ → Event
  starts_pop : Event
  owner_moves : Event
  thief_moves : ℕ → Bool → Event

abbrev owner_moved : System → Act × Memory × Owner → Act × System
owner_moved s r = (r.0, record s { memory = r.1; owner = r.2 })

unfoldable pub exec : System → Event → Act × System
exec s (starts_push ptr) = owner_moved s (begin_push s.memory s.owner ptr)
exec s starts_pop = owner_moved s (begin_pop s.memory s.owner)
exec s owner_moves = owner_moved s (owner_step s.memory s.owner)
exec s (thief_moves i spurious) =
    let r = thief_step s.memory spurious (s.thieves i) in
    (r.0, record s { memory = r.1; thieves = update s.thieves i r.2 })

-- A schedule, with what each step decided.
unfoldable pub run : System → List Event → List Act × System
unfolding exec
run s [] = ([], s)
run s (e ∷ es) = let r = exec s e in let rest = run r.1 es in (r.0 ∷ rest.0, rest.1)

-- A deque just initialized, which nobody uses yet.
abbrev pub start : List ℕ → ℕ → System
start storage capacity = record {
  memory = record { buffer = storage; capacity = capacity; top = 0; bottom = 0 };
  owner = Owner.idle;
  thieves = λ _. Thief.idle;
}
