-- ===== src/Processors/Masks.antt =====
-- ecs/concurrency/utils/processor_info.cpp: the masks that `GetCoreMask` gives, by the cores.
use native.Mathlib.Nat.{two-pow-succ, pow-le-pow_right, one-le-pow}
use engi_cs.Base.{
  ℕ, zero, suc, ◌+◌, ◌^◌, ◌≡◌, ◌<◌, ◌≤◌, refl, sym, ap, ◌∙◌, Bool, true, false, ◌&&◌, some, List,
  [], ◌∷◌, ◌++◌, ◌==◌, if◌then◌else◌, length, count, Bool-cases, inl, inr, arith,
}
use engi_cs.Processors.{
  GroupMask, Core, ProcessorInfo, CoreEfficiencyClass, high, low, processors_of_mask,
  processors_of_core, processors_of, number, Sort, listed, found, collect_process_info, core_masks,
  select, get_core_mask,
}
use engi_cs.Processors.Ordered.{of_class, of_both, above, Top, Lists, core_masks_lem}

pow_less : (i j : ℕ) → i < j → 2 ^ i < 2 ^ j
pow_less i j less = omega (
  arith,
  two-pow-succ i,
  one-le-pow i 2 (omega arith),
  pow-le-pow_right {n = 2} (omega arith) {i = suc i} {j = j} less,
)

-- What the loop over the bits finds of the bit `j`.
processors_of_mask-past :
    (left bit j top class : ℕ) (g : GroupMask)
    → j < bit
    → number (of_both top (2 ^ j)) (processors_of_mask left bit g class) ≡ 0
unfolding processors_of_mask
processors_of_mask-past zero bit j top class g less = refl
processors_of_mask-past (suc left) bit j top class g less =
    let rest = processors_of_mask-past left (bit + 1) j top class g (omega arith) in
    let differ = pow_less j bit less in ground (arith, rest, differ)

processors_of_mask-bit :
    (left bit j top class : ℕ) (g : GroupMask)
    → bit ≤ j
    → j < bit + left
    → number (of_both top (2 ^ j)) (processors_of_mask left bit g class)
      ≡ (if (class == top) && g.mask j then 1 else 0)
unfolding processors_of_mask
processors_of_mask-bit zero bit j top class g le less = absurd (omega arith)
processors_of_mask-bit (suc left) bit j top class g le less = elim (Bool-cases (bit == j)) [
  | inl same ↦
      let eq : bit ≡ j = ground (arith, same) in
      let pow = ap (λ n. 2 ^ n) eq in
      let rest = processors_of_mask-past left (bit + 1) j top class g (omega arith) in
      elim (Bool-cases (g.mask j)) [
        | inl set ↦
            let set' : g.mask bit ≡ true = ap g.mask eq ∙ set in
            ground (arith, rest, pow, set, set')
        | inr unset ↦
            let unset' : g.mask bit ≡ false = ap g.mask eq ∙ unset in
            ground (arith, rest, unset, unset')
      ]
  | inr other ↦
      let further : bit < j = ground (arith, other, le) in
      let rest = processors_of_mask-bit left (bit + 1) j top class g (omega arith) (omega arith) in
      let differ = pow_less bit j further in ground (arith, rest, differ)
]

number-append :
    (test : ProcessorInfo → Bool) (xs ys : List ProcessorInfo)
    → number test (xs ++ ys) ≡ number test xs + number test ys
number-append test [] ys = omega arith
number-append test (x ∷ xs) ys = omega (arith, number-append test xs ys)

-- In how many of some masks the bit `j` is set.
abbrev pub masks_with : ℕ → List GroupMask → ℕ
masks_with j [] = 0
masks_with j (g ∷ gs) = (if g.mask j then 1 else 0) + masks_with j gs

-- In how many masks of the cores of a class the bit `j` is set.
abbrev pub cores_with : ℕ → ℕ → List Core → ℕ
cores_with top j [] = 0
cores_with top j (c ∷ cs) =
    (if c.is_core && c.efficiency_class == top then masks_with j c.group_masks else 0)
    + cores_with top j cs

processors_of_core-bit :
    (j top class : ℕ) (gs : List GroupMask)
    → j < 64
    → number (of_both top (2 ^ j)) (processors_of_core gs class)
      ≡ (if class == top then masks_with j gs else 0)
unfolding processors_of_core
processors_of_core-bit j top class [] less = ground arith
processors_of_core-bit j top class (g ∷ gs) less =
    let first = processors_of_mask-bit 64 0 j top class g (omega arith) less in
    let rest = processors_of_core-bit j top class gs less in
    let both =
      number-append (of_both top (2 ^ j)) (processors_of_mask 64 0 g class)
        (processors_of_core gs class) in
    elim (Bool-cases (class == top)) [
      | inl same ↦ both ∙ ground (arith, first, rest, same)
      | inr other ↦ both ∙ ground (arith, first, rest, other)
    ]

processors_of-bit :
    (j top : ℕ) (cs : List Core)
    → j < 64
    → number (of_both top (2 ^ j)) (processors_of cs) ≡ cores_with top j cs
unfolding processors_of
processors_of-bit j top [] less = refl
processors_of-bit j top (c ∷ cs) less =
    let rest = processors_of-bit j top cs less in
    let first = processors_of_core-bit j top c.efficiency_class c.group_masks less in
    let both =
      number-append (of_both top (2 ^ j)) (processors_of_core c.group_masks c.efficiency_class)
        (processors_of cs) in
    elim (Bool-cases c.is_core) [
      | inl core ↦ rw core (both ∙ ground (arith, first, rest))
      | inr other ↦ rw other (ground (arith, rest))
    ]

number_all : (is : List ProcessorInfo) → number (λ i. true) is ≡ length is
number_all [] = refl
number_all (i ∷ is) = omega (arith, number_all is)

module _ (sorting : Sort) where
  open sorting use {sort, sort_number, sort-Descends}

  selected :
      (cores : List Core) (c : CoreEfficiencyClass) (masks classes : List ℕ)
      → core_masks (sort (processors_of cores)) ≡ some (masks, classes)
      → get_core_mask sorting (listed cores) c ≡ some (found (select c masks classes))
  unfolding get_core_mask collect_process_info
  selected cores c masks classes e = rw (get_core_mask, e) refl

  -- Both lists that `GetCoreMask` chooses from.
  high_and_low :
      (cores : List Core) (top : ℕ)
      → Top top (processors_of cores)
      → (masks : List ℕ) × (classes : List ℕ) × (get_core_mask sorting (listed cores) high
          ≡ some (found masks))
        × (get_core_mask sorting (listed cores) low ≡ some (found classes))
        × Lists top (sort (processors_of cores)) masks classes
  high_and_low cores top (some_top, none_above) =
      let is = processors_of cores in
      let t : Top top (sort is) =
        (omega (arith, sort_number (of_class top) is), sort_number (above top) is ∙ none_above) in
      let (masks, classes, lists, spec) = core_masks_lem top (sort is) t (sort-Descends is) in
      (
        masks,
        classes,
        selected cores high masks classes lists,
        selected cores low masks classes lists,
        spec,
      )

  -- If Windows lists cores of which `top` is the greatest class, of a core with a processor, then the
  -- masks for `High` are those of the processors of this class: that of the bit `j` stands in the list
  -- once for each mask of a core of the class in which the bit is set.
  pub high_masks :
      (cores : List Core) (top : ℕ)
      → Top top (processors_of cores)
      → (masks : List ℕ) × (get_core_mask sorting (listed cores) high ≡ some (found masks))
        × ((j : ℕ) → j < 64 → count (2 ^ j) masks ≡ cores_with top j cores)
  high_masks cores top t =
      let (masks, classes, run, run', (of_masks, of_classes)) = high_and_low cores top t in
      (
        masks,
        run,
        λ j less.
            of_masks (2 ^ j)
            ∙ sort_number (of_both top (2 ^ j)) (processors_of cores)
            ∙ processors_of-bit j top cores less,
      )

  -- If some processors are not of the greatest class `top`, then the list for `Low` holds the classes
  -- of these processors, each as often as it has processors, and no masks.
  pub low_classes :
      (cores : List Core) (top : ℕ)
      → Top top (processors_of cores)
      → number (of_class top) (processors_of cores) < length (processors_of cores)
      → (classes : List ℕ) × (get_core_mask sorting (listed cores) low ≡ some (found classes))
        × ((x : ℕ)
            → count x classes ≡ (if x == top then 0 else number (of_class x) (processors_of cores)))
  low_classes cores top t fewer =
      let (masks, classes, run, run', (of_masks, of_classes)) = high_and_low cores top t in
      let is = processors_of cores in
      let len : length (sort is) ≡ length is =
        sym (number_all (sort is)) ∙ sort_number (λ i. true) is ∙ number_all is in
      let fewer' : number (of_class top) (sort is) < length (sort is) =
        omega (arith, sort_number (of_class top) is) in
      (classes, run', λ x. of_classes fewer' x ∙ ground (arith, sort_number (of_class x) is))
