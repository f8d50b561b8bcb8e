-- ===== src/Deque/Threads/Weak.antt =====
-- deque.cpp with the stores of the owner in a buffer, as a processor with total store order keeps
-- them, which is what the release stores and acquire loads of the code allow at least: the owner
-- sees its stores at once, the thieves when they reach the memory.
pub mod Twice
pub mod Fenced
use engi_cs.Base.{ℕ, ◌-◌, ◌%◌, Bool, true, false, List, [], ◌∷◌, ◌++◌, set, add64, update}
use engi_cs.Deque.Threads.{
  Memory, Owner, push_loaded, push_room, push_written, pop_loaded, pop_lowered, pop_restore,
  pop_read, pop_race, pop_finish, Thief, Act, quiet, owner_step, begin_push, begin_pop, thief_step,
  Event, starts_push, starts_pop, owner_moves, thief_moves,
}

-- A store into `buffer` or to `bottom`.
pub data Store : Type 0 where
  to_slot : (index task : ℕ) → Store
  to_bottom : ℕ → Store

abbrev pub commit : Memory → Store → Memory
commit m (to_slot index task) = record m { buffer = set m.buffer index task }
commit m (to_bottom b) = record m { bottom = b }

-- The memory as the owner sees it: behind its own stores.
unfoldable pub view : Memory → List Store → Memory
view m [] = m
view m (s ∷ ss) = view (commit m s) ss

-- The store that the next access of the owner is, if it is one.
unfoldable pub stores_of : Memory → Owner → List Store
stores_of m (push_room ptr b) = to_slot (b % m.capacity) ptr ∷ []
stores_of m (push_written ptr b) = to_bottom (add64 b 1) ∷ []
stores_of m (pop_loaded b) = to_bottom (b - 1) ∷ []
stores_of m (pop_restore t) = to_bottom t ∷ []
stores_of m (pop_finish t) = to_bottom (add64 t 1) ∷ []
stores_of m Owner.idle = []
stores_of m (push_loaded ptr b) = []
stores_of m (pop_lowered b) = []
stores_of m (pop_read b t) = []
stores_of m (pop_race t task) = []

pub record WeakSystem : Type 0 where
  pub memory : Memory
  pub stores : List Store
  pub owner : Owner
  pub thieves : ℕ → Thief

-- The owner's next access: a store waits behind the others. A compare-exchange acts on the memory,
-- after the stores that wait.
unfoldable pub weak_owner : WeakSystem → Owner → Act × WeakSystem
weak_owner s (pop_race t task) =
    let r = owner_step (view s.memory s.stores) (pop_race t task) in
    (r.0, record s { memory = r.1; stores = []; owner = r.2 })
weak_owner s o =
    let r = owner_step (view s.memory s.stores) o in
    (r.0, record s { stores = s.stores ++ stores_of s.memory o; owner = r.2 })

-- The oldest store reaches the memory.
unfoldable pub drain : WeakSystem → List Store → WeakSystem
drain s [] = s
drain s (x ∷ xs) = record s { memory = commit s.memory x; stores = xs }

pub data WeakEvent : Type 0 where
  moves : Event → WeakEvent
  drains : WeakEvent

unfoldable pub weak_exec : WeakSystem → WeakEvent → Act × WeakSystem
unfolding view
weak_exec s (moves (starts_push ptr)) =
    let r = begin_push (view s.memory s.stores) s.owner ptr in (r.0, record s { owner = r.2 })
weak_exec s (moves starts_pop) =
    let r = begin_pop (view s.memory s.stores) s.owner in (r.0, record s { owner = r.2 })
weak_exec s (moves owner_moves) = weak_owner s s.owner
weak_exec s (moves (thief_moves i spurious)) =
    let r = thief_step s.memory spurious (s.thieves i) in
    (r.0, record s { memory = r.1; thieves = update s.thieves i r.2 })
weak_exec s drains = (quiet, drain s s.stores)

unfoldable pub weak_run : WeakSystem → List WeakEvent → List Act × WeakSystem
unfolding weak_exec
weak_run s [] = ([], s)
weak_run s (e ∷ es) = let r = weak_exec s e in let rest = weak_run r.1 es in (r.0 ∷ rest.0, rest.1)
