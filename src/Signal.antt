-- ===== src/Signal.antt =====
-- `Signal` of ecs/core/utils/single.h: a list of callbacks that is replaced as a whole, by a
-- compare-exchange on a shared pointer.
pub mod Threads
pub mod Atomic
pub mod Calls
mod Tests
use engi_cs.Base.{
  ℕ, ◌+◌, Bool, true, false, List, [], ◌∷◌, ◌++◌, ◌==◌, if◌then◌else◌, length, map, add64,
}

-- An element is a token and a callback, which is a number.
abbrev pub Elements : Type 0
Elements = List (ℕ × ℕ)

-- `m_callbacks`: the elements of the list it points to, and `version`, which stands for the
-- pointer: every list is a new allocation, and one that a thread still holds is not freed.
pub record Signal : Type 0 where
  pub version : ℕ
  pub callbacks : Elements
  pub next_id : ℕ

abbrev pub new_signal : Signal
new_signal = record { version = 0; callbacks = []; next_id = 1 }

-- `std::find_if` for a token
unfoldable pub has : ℕ → Elements → Bool
has token [] = false
has token ((id, cb) ∷ es) = if id == token then true else has token es

-- The elements of another token, which the loop in `Remove` copies.
unfoldable pub without : ℕ → Elements → Elements
without token [] = []
without token ((id, cb) ∷ es) =
    if id == token then without token es else (id, cb) ∷ without token es

-- A store of a new list.
abbrev pub store : Signal → Elements → Signal
store s es = record s { version = s.version + 1; callbacks = es }

unfoldable pub clear : Signal → Signal
clear s = store s []

-- `operator()`: the callbacks that it calls, in order.
unfoldable pub call : Signal → List ℕ
call s = map (λ e. e.1) s.callbacks

unfoldable pub size : Signal → ℕ
size s = length s.callbacks

-- The move constructor: the new signal, and the one moved from.
unfoldable pub move_from : Signal → Signal × Signal
move_from s = (s, record { version = s.version + 1; callbacks = []; next_id = 1 })
