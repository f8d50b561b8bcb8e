-- ===== src/EventLoop/Owners.antt =====
-- ecs/concurrency/run_loop/event_loop.h and event_loop.cpp: what a `Timer` owns. An object on the
-- heap is its address, 0 for null; a member that is not initialised holds an argument. `none` is a
-- fault: the deletion or the use of an object that is not alive.
use engi_cs.Base.{
  ℕ, ◌≡◌, refl, ap, Bool, true, false, Option, none, some, ◌==◌, ==_iff, if◌then◌else◌, update,
  Bool-cases, inl, inr, arith,
}

abbrev pub Heap : Type 0
Heap = ℕ → Bool

pub record Members : Type 0 where
  pub impl : ℕ
  pub callback : ℕ

-- `delete_object` and `Destroy`.
abbrev pub delete : ℕ → Heap → Option Heap
delete x h = if h x then some (update h x false) else none

abbrev pub allocate : ℕ → Heap → Heap
allocate x h = update h x true

abbrev delete_old : ℕ → Heap → Option Heap
delete_old x h = if x == 0 then some h else delete x h

unfoldable pub reset_impl : ℕ → Members → Heap → Option (Members × Heap)
reset_impl new t h = elim (delete_old t.impl h) [
  | none ↦ none
  | some h' ↦ some (record t { impl = new }, h')
]

unfoldable pub reset_callback : ℕ → Members → Heap → Option (Members × Heap)
reset_callback new t h = elim (delete_old t.callback h) [
  | none ↦ none
  | some h' ↦ some (record t { callback = new }, h')
]

-- The constructor, with the new implementation at the address `x`, in a storage that held `garbage`.
unfoldable pub new_timer : (x : ℕ) → (garbage : Members) → Heap → Option (Members × Heap)
unfolding reset_impl
new_timer x garbage h = reset_impl x garbage (allocate x h)

-- `SetCallback`, with the new task at the address `task`.
unfoldable pub set_callback : (task : ℕ) → Members → Heap → Option (Members × Heap)
unfolding reset_callback
set_callback task t h = reset_callback task t (allocate task h)

-- The destructor: `Shutdown` uses the implementation.
unfoldable pub destruct : Members → Heap → Option (Members × Heap)
unfolding reset_impl reset_callback
destruct t h =
    if h t.impl
    then elim (reset_impl 0 t h) [ none ↦ none | some (t', h') ↦ reset_callback 0 t' h' ]
    else none

-- The defaulted move constructor copies the pointers: the new timer, and the one moved from.
unfoldable pub move_from : Members → Members × Members
move_from t = (t, t)

-- A timer owns its implementation and its callback, if it has one.
pub record IsOwner (t : Members) (h : Heap) : Type 0 where
  pub impl_alive : h t.impl ≡ true
  pub impl_real : (t.impl == 0) ≡ false
  pub callback_alive : (t.callback == 0) ≡ false → h t.callback ≡ true
  pub apart : (t.callback == t.impl) ≡ false

differ : (h : Heap) (x y : ℕ) → h x ≡ true → h y ≡ false → (y == x) ≡ false
differ h x y alive dead = elim (Bool-cases (y == x)) [
  | inl e ↦ let same : h y ≡ h x = ap h ((==_iff y x).0 e) in absurd (ground (arith, same))
  | inr e ↦ e
]

-- A timer that owns what it points to sets a callback and keeps owning, if the new task is a new
-- object: its callback is the new task, its old one, if it had any, is deleted.
pub set_callback-IsOwner :
    (task : ℕ) (t : Members) (h : Heap)
    → IsOwner t h
    → h task ≡ false
    → (task == 0) ≡ false
    → (r : Members × Heap) × (set_callback task t h ≡ some r)
      × IsOwner r.0 r.1
      × (r.0.callback ≡ task)
      × ((t.callback == 0) ≡ false → r.1 t.callback ≡ false)
unfolding set_callback reset_callback
set_callback-IsOwner task t h o dead real = elim (Bool-cases (t.callback == 0)) [
  | inl e ↦ (
    (record t { callback = task }, allocate task h),
    ground (arith, e),
    record {
      impl_alive = ground (arith, o.impl_alive);
      impl_real = o.impl_real;
      callback_alive = λ p. ground arith;
      apart = differ h t.impl task o.impl_alive dead;
    },
    refl,
    λ p. ground (arith, e, p),
  )
  | inr e ↦
      let other = differ h t.callback task (o.callback_alive e) dead in
      let impl_other = differ h t.impl task o.impl_alive dead in
      (
        (record t { callback = task }, update (allocate task h) t.callback false),
        ground (arith, e, o.callback_alive e, other),
        record {
          impl_alive = ground (arith, o.impl_alive, o.apart);
          impl_real = o.impl_real;
          callback_alive = λ p. ground (arith, other);
          apart = impl_other;
        },
        refl,
        λ p. ground arith,
      )
]

-- The destructor of a timer that owns what it points to deletes the implementation and the callback,
-- if it has one. The destructor of a timer that was moved from, or to, after that of the other then
-- faults: the two hold the same pointers.
pub destruct_twice :
    (t : Members) (h : Heap)
    → IsOwner t h
    → let (t1, t2) = move_from t in
      (r : Members × Heap) × (destruct t1 h ≡ some r)
      × (r.1 t.impl ≡ false)
      × ((t.callback == 0) ≡ false → r.1 t.callback ≡ false)
      × (destruct t2 r.1 ≡ none)
unfolding destruct reset_impl reset_callback move_from
destruct_twice t h o = elim (Bool-cases (t.callback == 0)) [
  | inl e ↦
      let h' = update h t.impl false in
      let gone : h' t.impl ≡ false = ground arith in
      (
        (record { impl = 0; callback = 0 }, h'),
        ground (arith, e, o.impl_alive, o.impl_real),
        gone,
        λ p. ground (arith, e, p),
        ground (arith, gone),
      )
  | inr e ↦
      let h' = update (update h t.impl false) t.callback false in
      let gone : h' t.impl ≡ false = ground (arith, o.apart) in
      (
        (record { impl = 0; callback = 0 }, h'),
        ground (arith, e, o.impl_alive, o.impl_real, o.callback_alive e, o.apart),
        gone,
        λ p. ground arith,
        ground (arith, gone),
      )
]

-- The constructor faults if its storage held the address of no object in the place of the
-- implementation, and works if it held 0.
pub new_timer_garbage :
    (x : ℕ) (garbage : Members) (h : Heap)
    → (x == 0) ≡ false
    → ((garbage.impl == 0) ≡ false
        → (garbage.impl == x) ≡ false
        → h garbage.impl ≡ false
        → new_timer x garbage h ≡ none)
      × (garbage.impl ≡ 0
          → new_timer x garbage h ≡ some (record garbage { impl = x }, allocate x h))
unfolding new_timer reset_impl
new_timer_garbage x garbage h real = (λ p q d. ground arith, λ e. ground arith)
