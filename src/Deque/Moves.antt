-- ===== src/Deque/Moves.antt =====
-- The life of a `WSQImpl`: `Initialize`, `Deallocate`, and the moves.
use engi_cs.Base.{ℕ, ◌≤◌, ◌<◌, ◌≡◌, refl, Bool, false, none, some, List, [], length, arith}
use engi_cs.Deque.{Wsq, null_wsq, initialize, deallocate, move_from, push, pop, steal, empty}
use engi_cs.Deque.Refine.{contents, IsValid}

-- `Initialize` of a fresh object makes a valid empty deque, if the storage has `capacity` slots;
-- `Deallocate` of a valid deque hands back the storage, and a second call hands back nothing.
pub initialize-IsValid :
    (capacity resource : ℕ) (storage : List ℕ)
    → 0 < capacity
    → capacity ≤ length storage
    → let q = initialize null_wsq capacity resource storage in
      IsValid q
      × (contents q ≡ [])
      × ((deallocate q).1 ≡ some storage)
      × ((deallocate (deallocate q).0).1 ≡ none)
unfolding initialize deallocate
initialize-IsValid capacity resource storage pos fits = (
  record {
    storage = storage;
    allocated = refl;
    fits = fits;
    positive = pos;
    ordered = omega arith;
    bounded = omega arith;
    small = omega arith;
  },
  refl,
  refl,
  refl,
)

-- Move construction from a valid deque gives a valid deque of the same tasks, and leaves an
-- object that refuses every `Push`.
pub moved_from :
    {q : Wsq}
    → IsValid q
    → let (new, old) = move_from q in
      IsValid new × (contents new ≡ contents q) × ((x : ℕ) → push old x ≡ some (false, old))
unfolding move_from push
moved_from v = (v, refl, λ x. ground arith)

-- The moves leave `top` and `bottom` of the source alone. So an object that was moved from while
-- it held tasks says that it is not empty, and `Steal` and `Pop` on it fault.
pub steal_moved_from :
    (spurious : Bool) {q : Wsq}
    → IsValid q
    → q.top < q.bottom
    → (steal (move_from q).1 spurious ≡ none)
      × (pop (move_from q).1 ≡ none)
      × (empty (move_from q).1 ≡ false)
unfolding move_from steal pop empty
steal_moved_from spurious v h = (ground arith, ground arith, ground arith)
