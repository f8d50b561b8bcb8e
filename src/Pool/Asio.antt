-- ===== src/Pool/Asio.antt =====
-- `boost::asio::io_context` as the event loop uses it: a handler that is posted is pending until
-- it has run. A handler is the task that it runs and destroys, as a number.
use engi_cs.Base.{ℕ, ◌≡◌, List, ◌∷◌, count}

pub record Asio : Type 1 where
  pub Context : Type 0
  pub pending : Context → List ℕ
  pub post : Context → ℕ → Context
  pub post_lem : (c : Context) (x y : ℕ) → count y (pending (post c x)) ≡ count y (x ∷ pending c)
