-- ===== src/Pool/TaskQueue.antt =====
-- `moodycamel::ConcurrentQueue<Task*>`, a third-party queue that the loops share: its operations
-- and what the loops rely on. A task is a pointer, as a number.
use engi_cs.Base.{ℕ, ◌≡◌, Option, some, List, ◌∷◌, count}

pub record TaskQueue : Type 1 where
  pub Queue : Type 0
  pub items : Queue → List ℕ
  pub enqueue : Queue → ℕ → Option Queue  -- `none` where it returns false
  pub try_dequeue : Queue → Option (ℕ × Queue)  -- `none` where it returns false
  pub size_approx : Queue → ℕ
  pub enqueue_lem :
      (q : Queue) (x : ℕ) {r : Queue}
      → enqueue q x ≡ some r
      → (y : ℕ) → count y (items r) ≡ count y (x ∷ items q)
  pub try_dequeue_lem :
      (q : Queue) {x : ℕ} {r : Queue}
      → try_dequeue q ≡ some (x, r)
      → (y : ℕ) → count y (items q) ≡ count y (x ∷ items r)
