-- ===== src/Platform/MessageLoop/Containers.antt =====
-- The containers of Boost in which ecs/platform/message_loop/message_loop.cpp keeps its schedulers:
-- a `flat_map` from a type to a scheduler, and a `flat_multimap` from a message to types. A
-- `type_index` is a number. Nothing is taken for granted of the order of equal keys.
use engi_cs.Base.{ℕ, ◌+◌, ◌≡◌, Option, none, some, List, ◌==◌, ◌&&◌, if◌then◌else◌, count}

pub record Maps (V : Type 0) : Type 1 where
  pub Storage : Type 0
  pub no_values : Storage
  pub find : Storage → ℕ → Option V
  pub emplace : Storage → ℕ → V → Storage
  pub assign : Storage → ℕ → V → Storage  -- a write through the pointer to a value
  pub find-no_values : (t : ℕ) → find no_values t ≡ none
  pub find-emplace :
      (s : Storage) (t : ℕ) (v : V) (u : ℕ)
      → find s t ≡ none
      → find (emplace s t v) u ≡ (if t == u then some v else find s u)
  pub emplace_present : (s : Storage) (t : ℕ) (v w : V) → find s t ≡ some w → emplace s t v ≡ s
  pub find-assign :
      (s : Storage) (t : ℕ) (v w : V) (u : ℕ)
      → find s t ≡ some w
      → find (assign s t v) u ≡ (if t == u then some v else find s u)
  pub Index : Type 0
  pub no_entries : Index
  pub equal_range : Index → ℕ → List ℕ
  pub insert : Index → ℕ → ℕ → Index
  pub count-no_entries : (m t : ℕ) → count t (equal_range no_entries m) ≡ 0
  pub count-insert :
      (i : Index) (m t n u : ℕ)
      → count u (equal_range (insert i m t) n)
        ≡ (if m == n && u == t then 1 else 0) + count u (equal_range i n)
