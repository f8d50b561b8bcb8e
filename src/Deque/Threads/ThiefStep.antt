-- ===== src/Deque/Threads/ThiefStep.antt =====
-- `Steal` in deque.cpp: the accesses of a thief, against the invariant.
use mathlib.Core.Path.{subst}
use engi_cs.Base.{
  ℕ, suc, ◌+◌, ◌-◌, ◌^◌, ◌≤◌, ◌<◌, ◌≡◌, refl, sym, ap, add64, not, ◌&&◌, ◌∙◌, inl, inr, ◌∷◌, Bool,
  true, ◌==◌, Bool-cases, dec_lt, arith,
}
use engi_cs.Deque.Threads.{
  Memory, Owner, pop_lowered, Thief, got_top, got_bottom, got_task, Act, quiet, stole, thief_step,
}
use engi_cs.Deque.Window.{window}
use engi_cs.Deque.Threads.Inv.{end_of, limit, slot, tasks, OwnerOk, ThiefOk, Core, Keeps, Spec}

-- One access of a thief: what it keeps, and what it does to the tasks.
pub record Stole (n : ℕ) (m : Memory) (o : Owner) (r : Act × Memory × Thief) : Type 0 where
  pub core : Core (suc n) r.1 o
  pub keeps : Keeps m (limit m o) r.1 (limit r.1 o)
  pub meaning : Spec m.capacity (tasks m o) r.0 (tasks r.1 o)
  pub mine : ThiefOk r.1 (limit r.1 o) r.2
  pub same_capacity : r.1.capacity ≡ m.capacity

limit-le-end :
    (m : Memory) (o : Owner) → OwnerOk m o → (limit m o ≤ end_of m o) × (m.bottom ≤ limit m o)
limit-le-end m (pop_lowered b) ok = omega arith
limit-le-end m o ok = ground arith

-- the memory after a thief's compare-exchange
abbrev advanced : Memory → Memory
advanced m = record m { top = m.top + 1 }

end_of-advanced :
    (m : Memory) (o : Owner)
    → (end_of (advanced m) o ≡ end_of m o) × (limit (advanced m) o ≡ limit m o)
end_of-advanced m (pop_lowered b) = (refl, refl)
end_of-advanced m o = (refl, refl)

OwnerOk-advanced :
    (m : Memory) (o : Owner) → m.top < limit m o → OwnerOk m o → OwnerOk (advanced m) o
OwnerOk-advanced m (pop_lowered b) h ok = ok
OwnerOk-advanced m o h ok = ground arith

Core-advanced :
    (n : ℕ) (m : Memory) (o : Owner) → m.top < limit m o → Core n m o → Core (suc n) (advanced m) o
Core-advanced n m o h c = record {
  fits = c.fits;
  positive = c.positive;
  lower = omega (arith, (end_of-advanced m o).1);
  upper = omega (arith, (end_of-advanced m o).0, c.upper);
  few = omega (arith, (end_of-advanced m o).0, c.few);
  owner = OwnerOk-advanced m o h c.owner;
}

tasks-advanced :
    (m : Memory) (o : Owner) → m.top < end_of m o → tasks m o ≡ slot m m.top ∷ tasks (advanced m) o
tasks-advanced m o h =
    ap (window m.buffer m.capacity m.top) size
    ∙ ap (λ t. slot m m.top ∷ window m.buffer m.capacity t (end_of (advanced m) o - (m.top + 1)))
        next
  where
    size : end_of m o - m.top ≡ suc (end_of (advanced m) o - (m.top + 1))
    size = omega (arith, (end_of-advanced m o).0)

    next : suc m.top ≡ m.top + 1
    next = omega arith

Core-suc : {n : ℕ} {m : Memory} {o : Owner} → Core n m o → Core (suc n) m o
Core-suc c = record {
  fits = c.fits;
  positive = c.positive;
  lower = c.lower;
  upper = c.upper;
  few = omega (arith, c.few);
  owner = c.owner;
}

module _ (n : ℕ) (m : Memory) (o : Owner) (few : suc n < 2 ^ 64) (c : Core n m o) where
  looks : (p : Thief) → ThiefOk m (limit m o) p → Stole n m o (quiet, m, p)
  looks p ok = record {
    core = Core-suc c;
    keeps = inr (refl, λ h. h, λ _. refl);
    meaning = refl;
    mine = ok;
    same_capacity = refl;
  }

  wins :
      (t task : ℕ)
      → m.top ≡ t
      → t < limit m o
      → task ≡ slot m t
      → Stole n m o (stole task, record m { top = add64 t 1 }, Thief.idle)
  wins t task at below got =
      subst (λ k. Stole n m o (stole task, record m { top = k }, Thief.idle)) top
        (record {
          core = Core-advanced n m o (omega arith) c;
          keeps = inl (omega arith);
          meaning =
              tasks-advanced m o (omega (arith, limit-le-end m o c.owner))
              ∙ ap (λ x. x ∷ tasks (advanced m) o) (ap (slot m) at ∙ sym got);
          mine = tt;
          same_capacity = refl;
        })
    where
      top : m.top + 1 ≡ add64 t 1
      top = omega (arith, limit-le-end m o c.owner, c.few)

  pub thief_step-Stole :
      (spurious : Bool) (p : Thief)
      → ThiefOk m (limit m o) p
      → Stole n m o (thief_step m spurious p)
  unfolding thief_step
  thief_step-Stole spurious Thief.idle ok = looks (got_top m.top) (omega arith)
  thief_step-Stole spurious (got_top t) ok = elim (dec_lt t m.bottom) [
    | yes h ↦
        ground (arith, looks (got_bottom t) (ok, λ _. omega (arith, limit-le-end m o c.owner)))
    | no h ↦ ground (arith, looks Thief.idle tt)
  ]
  thief_step-Stole spurious (got_bottom t) ok =
      looks (got_task t (slot m t)) (ok.0, ok.1, λ _. refl)
  thief_step-Stole spurious (got_task t task) ok = elim (Bool-cases (not spurious && m.top == t)) [
    | inl won ↦ rw won (wins t task (at won) (ok.1 (at won)) (ok.2 (at won)))
    | inr lost ↦ rw lost (looks Thief.idle tt)
  ]
    where
      at : (not spurious && m.top == t) ≡ true → m.top ≡ t
      at h = ground arith
