-- ===== src/Processors/Tests.antt =====
-- ecs/concurrency/utils/processor_info.cpp: run on a machine with cores of two classes, sorted by
-- insertion.
use engi_cs.Base.{
  ℕ, ◌+◌, ◌^◌, ◌/◌, ◌≡◌, ◌<◌, ◌≤◌, refl, Bool, true, some, List, [], ◌∷◌, ◌==◌, ltb, leb,
  if◌then◌else◌, count, Bool-cases, inl, inr, arith,
}
use engi_cs.Processors.{
  Core, ProcessorInfo, high, low, processors_of_mask, processors_of_core, processors_of, number,
  AtMost, Descends, Sort, listed, found, leading_masks, classes_after, core_masks,
  collect_process_info, get_core_mask,
}
use engi_cs.Processors.Ordered.{of_class}
use engi_cs.Processors.Masks.{cores_with, high_masks, low_classes}

abbrev insert : ProcessorInfo → List ProcessorInfo → List ProcessorInfo
insert i [] = i ∷ []
insert i (x ∷ xs) =
    let rest = insert i xs in
    if leb x.efficiency_class i.efficiency_class then i ∷ x ∷ xs else x ∷ rest

abbrev insertion_sort : List ProcessorInfo → List ProcessorInfo
insertion_sort [] = []
insertion_sort (i ∷ is) = insert i (insertion_sort is)

insert-number :
    (test : ProcessorInfo → Bool) (i : ProcessorInfo) (xs : List ProcessorInfo)
    → number test (insert i xs) ≡ (if test i then 1 else 0) + number test xs
insert-number test i [] = refl
insert-number test i (x ∷ xs) = elim (Bool-cases (leb x.efficiency_class i.efficiency_class)) [
  | inl before ↦ rw before refl
  | inr after ↦ rw after (omega (arith, insert-number test i xs))
]

sort_number :
    (test : ProcessorInfo → Bool) (is : List ProcessorInfo)
    → number test (insertion_sort is) ≡ number test is
sort_number test [] = refl
sort_number test (i ∷ is) =
    omega (arith, insert-number test i (insertion_sort is), sort_number test is)

AtMost-mono : (n m : ℕ) (xs : List ProcessorInfo) → n ≤ m → AtMost n xs → AtMost m xs
AtMost-mono n m [] le h = tt
AtMost-mono n m (x ∷ xs) le (first, h) = (omega arith, AtMost-mono n m xs le h)

insert-AtMost :
    (n : ℕ) (i : ProcessorInfo) (xs : List ProcessorInfo)
    → i.efficiency_class ≤ n
    → AtMost n xs
    → AtMost n (insert i xs)
insert-AtMost n i [] le h = (le, tt)
insert-AtMost n i (x ∷ xs) le (first, h) =
    elim (Bool-cases (leb x.efficiency_class i.efficiency_class)) [
      | inl before ↦ rw before (le, (first, h))
      | inr after ↦ rw after (first, insert-AtMost n i xs le h)
    ]

insert-Descends :
    (i : ProcessorInfo) (xs : List ProcessorInfo) → Descends xs → Descends (insert i xs)
insert-Descends i [] d = (tt, tt)
insert-Descends i (x ∷ xs) (below, d) =
    elim (Bool-cases (leb x.efficiency_class i.efficiency_class)) [
      | inl before ↦
          let le : x.efficiency_class ≤ i.efficiency_class = ground (arith, before) in
          rw before
            ((le, AtMost-mono x.efficiency_class i.efficiency_class xs le below), (below, d))
      | inr after ↦
          let le : i.efficiency_class ≤ x.efficiency_class = ground (arith, after) in
          rw after (insert-AtMost x.efficiency_class i xs le below, insert-Descends i xs d)
    ]

sort-Descends : (is : List ProcessorInfo) → Descends (insertion_sort is)
sort-Descends [] = tt
sort-Descends (i ∷ is) = insert-Descends i (insertion_sort is) (sort-Descends is)

abbrev by_insertion : Sort
by_insertion = record {
  sort = insertion_sort;
  sort_number = sort_number;
  sort-Descends = sort-Descends;
}

-- The bits 0 and 1 of one core of class 0, and the bits 2 and 3 of one of class 1.
abbrev cores : List Core
cores =
    record {
      is_core = true;
      efficiency_class = 0;
      group_masks = record { group = 0; mask = λ j. ltb j 2 } ∷ [];
    }
    ∷ record {
      is_core = true;
      efficiency_class = 1;
      group_masks = record { group = 0; mask = λ j. j / 2 == 1 } ∷ [];
    }
    ∷ []

abbrev processors : List ProcessorInfo
processors =
    record { mask = 1; group = 0; efficiency_class = 0 }
    ∷ record { mask = 2; group = 0; efficiency_class = 0 }
    ∷ record { mask = 4; group = 0; efficiency_class = 1 }
    ∷ record { mask = 8; group = 0; efficiency_class = 1 }
    ∷ []

collected : processors_of cores ≡ processors
unfolding processors_of processors_of_core processors_of_mask
collected = refl

high_run : get_core_mask by_insertion (listed cores) high ≡ some (found (4 ∷ 8 ∷ []))
unfolding get_core_mask collect_process_info core_masks leading_masks classes_after processors_of
    processors_of_core processors_of_mask
high_run = refl

-- Two classes of 0 stand where the masks 1 and 2 should.
low_run : get_core_mask by_insertion (listed cores) low ≡ some (found (0 ∷ 0 ∷ []))
unfolding get_core_mask collect_process_info core_masks leading_masks classes_after processors_of
    processors_of_core processors_of_mask
low_run = refl

high_masks_example :
    (masks : List ℕ) × (get_core_mask by_insertion (listed cores) high ≡ some (found masks))
    × ((j : ℕ) → j < 64 → count (2 ^ j) masks ≡ cores_with 1 j cores)
unfolding processors_of processors_of_core processors_of_mask
high_masks_example = high_masks by_insertion cores 1 (omega arith, refl)

low_classes_example :
    (classes : List ℕ) × (get_core_mask by_insertion (listed cores) low ≡ some (found classes))
    × ((x : ℕ)
        → count x classes ≡ (if x == 1 then 0 else number (of_class x) (processors_of cores)))
unfolding processors_of processors_of_core processors_of_mask
low_classes_example = low_classes by_insertion cores 1 (omega arith, refl) (omega arith)
