-- ===== src/Emitter.antt =====
-- `TypeEmitter` of ecs/core/utils/emitter.h: a list of listeners that is replaced as a whole, and
-- tokens that remove a listener when they are destroyed.
pub mod Ordered
mod Tests
use engi_cs.Base.{
  ℕ, zero, suc, ◌+◌, ◌≡◌, ◌<◌, ◌≤◌, Bool, true, false, Option, none, some, List, [], ◌∷◌, ◌++◌, map,
  ◌==◌, ltb, if◌then◌else◌, add64, get_elem?,
}

-- `fun` is a callback, as a number.
pub record Listener : Type 0 where
  pub id : ℕ
  pub fun : ℕ

-- `m_next_id` starts at 0.
pub record Emitter : Type 0 where
  pub listeners : List Listener
  pub next_id : ℕ

abbrev pub new_emitter : Emitter
new_emitter = record { listeners = []; next_id = 0 }

-- The number of the first listeners whose id is less than a number.
abbrev pub less : ℕ → List Listener → ℕ
less n [] = 0
less n (l ∷ ls) = if ltb l.id n then suc (less n ls) else 0

abbrev pub NotLess : ℕ → List Listener → Type 0
NotLess n [] = Unit {0}
NotLess n (l ∷ ls) = (n ≤ l.id) × NotLess n ls

-- The listeners whose id is less than a number come before the others.
abbrev pub IsPartitioned : ℕ → List Listener → Type 0
IsPartitioned n [] = Unit {0}
IsPartitioned n (l ∷ ls) = (l.id < n → IsPartitioned n ls) × (n ≤ l.id → NotLess n ls)

-- `std::lower_bound`, whose result is not specified for a range that is not partitioned.
pub record LowerBound : Type 0 where
  pub lower_bound : List Listener → ℕ → ℕ
  pub lower_bound_partitioned :
      (ls : List Listener) (n : ℕ) → IsPartitioned n ls → lower_bound ls n ≡ less n ls

-- `AddListener` takes its id, and later stores its list; other threads can come between the two.
-- What it stores is what the moves of `n` compare-exchanges that failed have left of the callback.
unfoldable pub take_id : Emitter → ℕ × Emitter
take_id e = (e.next_id, record e { next_id = add64 e.next_id 1 })

abbrev pub iterate : (ℕ → ℕ) → ℕ → ℕ → ℕ
iterate f zero x = x
iterate f (suc n) x = iterate f n (f x)

unfoldable pub append : (after_move : ℕ → ℕ) → (n id fun : ℕ) → Emitter → Emitter
append after_move n id fun e = record e {
  listeners = e.listeners ++ (record { id = id; fun = iterate after_move n fun } ∷ []);
}

unfoldable pub add_listener : (after_move : ℕ → ℕ) → (n fun : ℕ) → Emitter → ℕ × Emitter
unfolding take_id append
add_listener after_move n fun e = let (id, e') = take_id e in (id, append after_move n id fun e')

-- The list without the listener at an index.
abbrev pub erase_at : List Listener → ℕ → List Listener
erase_at [] i = []
erase_at (l ∷ ls) zero = ls
erase_at (l ∷ ls) (suc i) = l ∷ erase_at ls i

abbrev pub remove_at : List Listener → ℕ → ℕ → List Listener
remove_at ls id i = elim (get_elem? ls i) [
  | none ↦ ls
  | some l ↦ if l.id == id then erase_at ls i else ls
]

unfoldable pub emit : Emitter → List ℕ
emit e = map (λ l. l.fun) e.listeners

-- A token: whether it has an emitter, and its id.
pub record Token : Type 0 where
  pub attached : Bool
  pub id : ℕ

abbrev pub detached : Token
detached = record { attached = false; id = 0 }

-- The move constructor: the new token, and the one moved from.
unfoldable pub move_token : Token → Token × Token
move_token t = (t, detached)

module _ (std : LowerBound) where
  open std use {lower_bound}

  unfoldable pub remove_listener : ℕ → Emitter → Emitter
  remove_listener id e = record e {
    listeners = remove_at e.listeners id (lower_bound e.listeners id);
  }

  unfoldable pub destroy_token : Token → Emitter → Emitter
  destroy_token t e = if t.attached then remove_listener t.id e else e

  unfoldable pub reset : Token → Emitter → Token × Emitter
  reset t e = (detached, if t.attached then remove_listener t.id e else e)

  -- The move assignment from another token: both tokens and the emitter.
  unfoldable pub assign_token : (to from : Token) → Emitter → Token × Token × Emitter
  unfolding reset
  assign_token to from e = let (t, e') = reset to e in (from, detached, e')
