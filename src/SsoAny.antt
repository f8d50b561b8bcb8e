-- ===== src/SsoAny.antt =====
-- ecs/core/utils/sso_any.h: `SsoAny`, a value of any small type inside a buffer. Objects stand in a
-- memory by their addresses, and construction and destruction are counted. A type is a number, and
-- the functions that a constructor stores for a type are the number of the type. `none` as the
-- result of a call is a fault: a call through a null pointer, or a read where no object stands.
pub mod Sound
pub mod Lifetimes
mod Tests
use engi_cs.Base.{
  ℕ, ◌+◌, ◌-◌, ◌≡◌, Bool, true, false, not, ◌&&◌, Option, none, some, List, [], ◌∷◌, ◌==◌,
  if◌then◌else◌, update,
}

pub record Object : Type 0 where
  pub type : ℕ
  pub value : ℕ

-- What the types of the values do: `std::is_nothrow_destructible`, the value of a copy, the value
-- that a move makes, and the value that it leaves.
pub record ValueTypes : Type 0 where
  pub nothrow_destructible : ℕ → Bool
  pub copied : (type value : ℕ) → ℕ
  pub moved : (type value : ℕ) → ℕ
  pub left : (type value : ℕ) → ℕ

pub record Memory : Type 0 where
  pub object : ℕ → Option Object
  pub constructed : ℕ
  pub destructed : ℕ

-- `storage` is the address of `m_storage`, and a pointer is an address, 0 for null.
pub record SsoAny : Type 0 where
  pub storage : ℕ
  pub ptr : ℕ
  pub destructor : Option ℕ
  pub copy_constructor : Option ℕ
  pub move_constructor : Option ℕ
  pub type : Option ℕ

abbrev pub empty_any : ℕ → SsoAny
empty_any storage = record {
  storage = storage;
  ptr = 0;
  destructor = none;
  copy_constructor = none;
  move_constructor = none;
  type = none;
}

abbrev pub construct : (type value address : ℕ) → Memory → Memory
construct type value address m = record m {
  object = update m.object address (some (record { type = type; value = value }));
  constructed = m.constructed + 1;
}

-- The constructor from a value.
unfoldable pub from_value : (type value storage : ℕ) → Memory → SsoAny × Memory
from_value type value storage m = (
  record {
    storage = storage;
    ptr = storage;
    destructor = some type;
    copy_constructor = some type;
    move_constructor = some type;
    type = some type;
  },
  construct type value storage m,
)

unfoldable pub has_value : SsoAny → Bool
has_value a = not (a.ptr == 0)

-- `type()`, where `none` is `typeid(void)`.
unfoldable pub type_of : SsoAny → Option ℕ
type_of a = a.type

abbrev is_type : Option ℕ → ℕ → Bool
is_type none t = false
is_type (some u) t = u == t

-- `cast`: the address of the value, or `none` where it throws.
unfoldable pub cast : ℕ → SsoAny → Option ℕ
unfolding has_value
cast t a = if has_value a && is_type a.type t then some a.ptr else none

pub record Variables : Type 0 where
  pub var : ℕ → SsoAny
  pub memory : Memory

module _ (types : ValueTypes) where
  open types use {nothrow_destructible, copied, moved, left}

  unfoldable pub destroy : (type address : ℕ) → Memory → Memory
  destroy type address m =
      if nothrow_destructible type
      then record m { object = update m.object address none; destructed = m.destructed + 1 }
      else m

  -- The two functions that `m_copy_constructor` and `m_move_constructor` point to.
  unfoldable pub copy_construct : (type src dst : ℕ) → Memory → Option Memory
  copy_construct type src dst m = elim (m.object src) [
    | none ↦ none
    | some o ↦ some (construct type (copied type o.value) dst m)
  ]

  unfoldable pub move_construct : (type src dst : ℕ) → Memory → Option Memory
  move_construct type src dst m = elim (m.object src) [
    | none ↦ none
    | some o ↦ some (
        construct type (moved type o.value) dst (record m {
          object = update m.object src (some (record o { value = left type o.value }));
        }))
  ]

  abbrev like : SsoAny → (storage ptr : ℕ) → SsoAny
  like other storage ptr = record other { storage = storage; ptr = ptr }

  -- The copy constructor, for a new object with the given storage.
  unfoldable pub copy_from : (storage : ℕ) → SsoAny → Memory → Option (SsoAny × Memory)
  unfolding copy_construct
  copy_from storage other m =
      let location = storage + (other.ptr - other.storage) in
      if other.ptr == 0 then some (empty_any storage, m) else elim other.copy_constructor [
        | none ↦ none
        | some type ↦ elim (copy_construct type other.ptr location m) [
          | none ↦ none
          | some m' ↦ some (like other storage location, m')
        ]
      ]

  -- The move constructor: the new object, the one moved from, and the memory.
  unfoldable pub move_from : (storage : ℕ) → SsoAny → Memory → Option (SsoAny × SsoAny × Memory)
  unfolding move_construct
  move_from storage other m =
      let location = storage + (other.ptr - other.storage) in
      if other.ptr == 0 then some (empty_any storage, other, m) else elim other.move_constructor [
        | none ↦ none
        | some type ↦ elim (move_construct type other.ptr location m) [
          | none ↦ none
          | some m' ↦ some (like other storage location, record other { ptr = 0 }, m')
        ]
      ]

  unfoldable pub destruct : SsoAny → Memory → Memory
  unfolding destroy
  destruct a m = elim a.destructor [
    | none ↦ m
    | some type ↦ if a.ptr == 0 then m else destroy type a.ptr m
  ]

  -- An assignment of the variable `j` to the variable `i`.
  unfoldable pub copy_assign : (i j : ℕ) → Variables → Option Variables
  copy_assign i j s =
      if i == j
      then some s
      else elim (copy_from (s.var i).storage (s.var j) (destruct (s.var i) s.memory)) [
        | none ↦ none
        | some (a, m) ↦ some (record { var = update s.var i a; memory = m })
      ]

  unfoldable pub move_assign : (i j : ℕ) → Variables → Option Variables
  move_assign i j s =
      if i == j
      then some s
      else elim (move_from (s.var i).storage (s.var j) (destruct (s.var i) s.memory)) [
        | none ↦ none
        | some (a, b, m) ↦ some (record { var = update (update s.var j b) i a; memory = m })
      ]

  -- `a = SsoAny(value)` with a temporary at the address `temporary`.
  unfoldable pub value_assign : (i type value temporary : ℕ) → Variables → Option Variables
  unfolding from_value
  value_assign i type value temporary s =
      let (t, m) = from_value type value temporary s.memory in
      elim (move_from (s.var i).storage t (destruct (s.var i) m)) [
        | none ↦ none
        | some (a, t', m') ↦ some (record { var = update s.var i a; memory = destruct t' m' })
      ]
