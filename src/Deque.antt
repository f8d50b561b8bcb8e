-- ===== src/Deque.antt =====
-- ecs/concurrency/container/deque.h and deque.cpp: the functions of `WSQImpl`, each run without
-- interruption. A pointer is a number, the null pointer is 0.
pub mod Window
pub mod Refine
pub mod Moves
pub mod Threads
mod Tests
use engi_cs.Base.{
  ℕ, ◌-◌, ◌%◌, ◌<◌, Bool, true, false, Option, none, some, List, get_elem?, set, ltb, leb, ◌==◌,
  if◌then◌else◌, add64, sub64, length,
}

-- `resource` and `buffer` are `none` where the pointer is null.
pub record Wsq : Type 0 where
  pub resource : Option ℕ
  pub buffer : Option (List ℕ)
  pub capacity : ℕ
  pub top : ℕ
  pub bottom : ℕ

abbrev pub null_wsq : Wsq
null_wsq = record { resource = none; buffer = none; capacity = 0; top = 0; bottom = 0 }

-- `buffer[i % capacity]`. `none` is a fault: a null buffer, `% 0`, or an index out of range.
abbrev pub load_slot : Wsq → ℕ → Option ℕ
load_slot q i = elim q.buffer [
  | none ↦ none
  | some xs ↦ if q.capacity == 0 then none else get_elem? xs (i % q.capacity)
]

abbrev pub store_slot : Wsq → ℕ → ℕ → Option Wsq
store_slot q i ptr = elim q.buffer [
  | none ↦ none
  | some xs ↦
      if q.capacity == 0
      then none
      else if ltb (i % q.capacity) (length xs)
      then some (record q { buffer = some (set xs (i % q.capacity) ptr) })
      else none
]

-- `storage` is what `resource->allocate` returned.
unfoldable pub initialize : Wsq → ℕ → ℕ → List ℕ → Wsq
initialize q capacity resource storage = record q {
  resource = some resource;
  capacity = capacity;
  buffer = some storage;
}

-- The second part is what is handed to `resource->deallocate`, if it is called.
unfoldable pub deallocate : Wsq → Wsq × Option (List ℕ)
deallocate q = elim q.buffer [
  | none ↦ (q, none)
  | some xs ↦ (record q { buffer = none; capacity = 0 }, some xs)
]

-- The move constructor: the new object and the old one.
unfoldable pub move_from : Wsq → Wsq × Wsq
move_from other = (other, record other { resource = none; buffer = none; capacity = 0 })

-- The move assignment from another object: the target, the source, and what was freed.
unfoldable pub move_assign : Wsq → Wsq → Wsq × Wsq × Option (List ℕ)
unfolding deallocate
move_assign q other =
    let (_, freed) = deallocate q in
    (other, record other { resource = none; buffer = none; capacity = 0 }, freed)

unfoldable pub push : Wsq → ℕ → Option (Bool × Wsq)
push q ptr =
    if leb q.capacity (sub64 q.bottom q.top)
    then some (false, q)
    else elim (store_slot q q.bottom ptr) [
      | none ↦ none
      | some r ↦ some (true, record r { bottom = add64 q.bottom 1 })
    ]

-- The part of `Pop` after `bottom` has been stored; nobody else runs, so the exchange succeeds.
abbrev pop_at : Wsq → ℕ → Option (ℕ × Wsq)
pop_at q b = if ltb b q.top then some (0, record q { bottom = q.top }) else elim (load_slot q b) [
  | none ↦ none
  | some task ↦
      if ltb q.top b
      then some (task, record q { bottom = b })
      else some (task, record q { top = add64 q.top 1; bottom = add64 q.top 1 })
]

unfoldable pub pop : Wsq → Option (ℕ × Wsq)
pop q = if q.bottom == 0 then some (0, q) else pop_at q (q.bottom - 1)

-- `compare_exchange_weak` may fail although `top` has not changed: `spurious`.
unfoldable pub steal : Wsq → Bool → Option (ℕ × Wsq)
steal q spurious = if leb q.bottom q.top then some (0, q) else elim (load_slot q q.top) [
  | none ↦ none
  | some task ↦ if spurious then some (0, q) else some (task, record q { top = add64 q.top 1 })
]

unfoldable pub empty : Wsq → Bool
empty q = leb q.bottom q.top
