-- ===== src/Processors.antt =====
-- ecs/concurrency/utils/processor_info.cpp: what `GetCoreMask` makes of the cores that Windows lists.
-- A mask of Windows is given by its 64 bits, and one that the code makes is a number.
pub mod Ordered
pub mod Masks
mod Tests
use engi_cs.Base.{
  ℕ, zero, suc, ◌+◌, ◌-◌, ◌/◌, ◌^◌, ◌≡◌, ◌≤◌, Bool, true, false, Option, none, some, List, [], ◌∷◌,
  ◌++◌, map, ◌==◌, if◌then◌else◌, length,
}

-- `GroupMask` and the fields that the code reads of `SYSTEM_LOGICAL_PROCESSOR_INFORMATION_EX`.
pub record GroupMask : Type 0 where
  pub group : ℕ
  pub mask : ℕ → Bool

pub record Core : Type 0 where
  pub is_core : Bool
  pub efficiency_class : ℕ
  pub group_masks : List GroupMask

pub record ProcessorInfo : Type 0 where
  pub mask : ℕ
  pub group : ℕ
  pub efficiency_class : ℕ

pub data CoreEfficiencyClass : Type 0 where
  high low : CoreEfficiencyClass

-- The loop over the bits of a mask, with `left` bits to go.
unfoldable pub processors_of_mask : (left bit : ℕ) → GroupMask → ℕ → List ProcessorInfo
processors_of_mask zero bit g class = []
processors_of_mask (suc left) bit g class =
    let rest = processors_of_mask left (bit + 1) g class in
    if g.mask bit
    then record { mask = 2 ^ bit; group = g.group; efficiency_class = class } ∷ rest
    else rest

unfoldable pub processors_of_core : List GroupMask → ℕ → List ProcessorInfo
processors_of_core [] class = []
processors_of_core (g ∷ gs) class = processors_of_mask 64 0 g class ++ processors_of_core gs class

unfoldable pub processors_of : List Core → List ProcessorInfo
processors_of [] = []
processors_of (c ∷ cs) =
    let rest = processors_of cs in
    if c.is_core then processors_of_core c.group_masks c.efficiency_class ++ rest else rest

-- How many of some processors satisfy a test.
abbrev pub number : (ProcessorInfo → Bool) → List ProcessorInfo → ℕ
number test [] = 0
number test (i ∷ is) = (if test i then 1 else 0) + number test is

-- No processor is of a class above the one of a processor that stands before it.
abbrev pub AtMost : ℕ → List ProcessorInfo → Type 0
AtMost n [] = Unit {0}
AtMost n (i ∷ is) = (i.efficiency_class ≤ n) × AtMost n is

abbrev pub Descends : List ProcessorInfo → Type 0
Descends [] = Unit {0}
Descends (i ∷ is) = AtMost i.efficiency_class is × Descends is

-- `std::ranges::sort` by the efficiency class, the greatest first. It need not be stable.
pub record Sort : Type 0 where
  pub sort : List ProcessorInfo → List ProcessorInfo
  pub sort_number :
      (test : ProcessorInfo → Bool) (is : List ProcessorInfo)
      → number test (sort is) ≡ number test is
  pub sort-Descends : (is : List ProcessorInfo) → Descends (sort is)

-- The answers of the two calls of `GetLogicalProcessorInformationEx`; an error is a number.
pub data Answer : Type 0 where
  size_refused cores_refused : (error : ℕ) → Answer
  listed : (cores : List Core) → Answer

pub data Result {ℓ} (A : Type ℓ) : Type ℓ where
  found : A → Result A
  unexpected : (error : ℕ) → Result A

-- `views::take_while` of the class `class`, with the masks, and `views::drop`, with the classes.
unfoldable pub leading_masks : ℕ → List ProcessorInfo → List ℕ
leading_masks class [] = []
leading_masks class (i ∷ is) =
    let rest = leading_masks class is in if i.efficiency_class == class then i.mask ∷ rest else []

unfoldable pub classes_after : ℕ → List ProcessorInfo → List ℕ
classes_after n [] = []
classes_after zero (i ∷ is) = i.efficiency_class ∷ classes_after zero is
classes_after (suc n) (i ∷ is) = classes_after n is

abbrev pub drop_nums : (high : List ℕ) → List ProcessorInfo → ℕ
drop_nums masks is = if length masks == length is then length is / 2 else length masks

abbrev pub select : CoreEfficiencyClass → (high low : List ℕ) → List ℕ
select high masks classes = masks
select low masks classes = classes

-- The lists `high` and `low`, of sorted processors; none is the front of no processors.
unfoldable pub core_masks : List ProcessorInfo → Option (List ℕ × List ℕ)
unfolding leading_masks classes_after
core_masks [] = none
core_masks (i ∷ is) =
    let masks = leading_masks i.efficiency_class (i ∷ is) in
    some (masks, classes_after (drop_nums masks (i ∷ is)) (i ∷ is))

module _ (sorting : Sort) where
  unfoldable pub collect_process_info : Answer → Result (List ProcessorInfo)
  unfolding processors_of
  collect_process_info (size_refused error) = unexpected error
  collect_process_info (cores_refused error) = unexpected error
  collect_process_info (listed cores) = found (sorting.sort (processors_of cores))

  unfoldable pub get_core_mask : Answer → CoreEfficiencyClass → Option (Result (List ℕ))
  unfolding collect_process_info core_masks
  get_core_mask answer c = elim (collect_process_info answer) [
    | unexpected error ↦ some (unexpected error)
    | found is ↦ elim (core_masks is) [
      | none ↦ none
      | some lists ↦ some (found (select c lists.0 lists.1))
    ]
  ]
