-- ===== src/Memory/Stack.antt =====
-- `AlignedStackPmr` of ecs/core/memory/memory.h: objects that are laid one after the other into a
-- buffer inside the allocator.
pub mod Layout
pub mod Allocate
pub mod Move
use engi_cs.Base.{
  ℕ, ◌+◌, ◌-◌, ◌%◌, Option, none, some, List, [], ◌∷◌, ◌++◌, length, ltb, if◌then◌else◌, add64,
  sub64,
}
use engi_cs.ErrorCode.{EcsErrc, buffer_overflow}

-- An entry of `m_objects`; its deleter and mover are those of its type. `value` stands for what the
-- object holds.
pub record Object : Type 0 where
  pub address : ℕ
  pub size : ℕ
  pub alignment : ℕ
  pub value : ℕ

-- `base` is the address of `m_buffer`; `objects` are the entries below `m_allocatedCount`.
pub record Stack : Type 0 where
  pub base : ℕ
  pub objects : List Object
  pub used : ℕ

-- `Result<void*>` with the bytes needed.
pub data Space : Type 0 where
  space : (address total : ℕ) → Space
  unexpected : EcsErrc → Space

-- How far an address is from the next multiple of an alignment.
abbrev pub padding : ℕ → ℕ → ℕ
padding address alignment = (alignment - address % alignment) % alignment

-- `std::align`: the aligned address and the room that is left from it on.
abbrev pub align : ℕ → ℕ → ℕ → ℕ → Option (ℕ × ℕ)
align alignment size address room =
    if ltb room (padding address alignment + size)
    then none
    else some (address + padding address alignment, room - padding address alignment)

-- The objects in the order in which their deleters are called.
abbrev pub destroyed : List Object → List Object
destroyed [] = []
destroyed (o ∷ os) = destroyed os ++ (o ∷ [])

-- The template arguments `BufferSize` and `ObjectCount`.
module _ (buffer_size object_count : ℕ) where
  unfoldable pub allocate_space : Stack → ℕ → ℕ → Space
  allocate_space s size alignment =
      let before = s.base + s.used in
      elim (align alignment size before (sub64 buffer_size s.used)) [
        | none ↦ unexpected buffer_overflow
        | some (aligned, available) ↦
            if ltb available size
            then unexpected buffer_overflow
            else space aligned (aligned - before + size)
      ]

  -- The entry that `allocate` and the move constructor append.
  abbrev pub placed : Stack → Object → ℕ → Stack
  placed s o total = record s { objects = s.objects ++ (o ∷ []); used = add64 s.used total }

  -- `none` is an assertion that fails.
  unfoldable pub allocate : Stack → ℕ → ℕ → ℕ → Option (ℕ × Stack)
  allocate s size alignment value =
      if ltb (length s.objects) object_count
      then elim (allocate_space s size alignment) [
        | unexpected e ↦ none
        | space p total ↦ some (
          p,
          placed s (record { address = p; size = size; alignment = alignment; value = value })
              total,
        )
      ]
      else none

  unfoldable pub reset : Stack → List Object × Stack
  reset s = (destroyed s.objects, record s { objects = []; used = 0 })

  -- The loop of the move constructor; `none` is `std::unreachable`.
  unfoldable pub move_each : Stack → List Object → Option Stack
  move_each s [] = some s
  move_each s (o ∷ os) = elim (allocate_space s o.size o.alignment) [
    | unexpected e ↦ none
    | space p total ↦ move_each (placed s (record o { address = p }) total) os
  ]

  -- A new allocator at `base`, and the one moved from.
  unfoldable pub move_from : ℕ → Stack → Option (Stack × Stack)
  move_from base other =
      elim (move_each (record { base = base; objects = []; used = 0 }) other.objects) [
        | none ↦ none
        | some s ↦ some (s, record other { objects = []; used = 0 })
      ]
