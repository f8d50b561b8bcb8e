-- ===== src/Processors/Ordered.antt =====
-- ecs/concurrency/utils/processor_info.cpp: the lists of `GetCoreMask`, on sorted processors.
use mathlib.Core.Path.{subst}
use engi_cs.Base.{
  ℕ, ◌≡◌, ◌<◌, ◌≤◌, refl, sym, ap, ◌∙◌, Bool, ◌&&◌, some, List, [], ◌∷◌, ◌==◌, ltb, if◌then◌else◌,
  length, count, Bool-cases, inl, inr, arith,
}
use engi_cs.Processors.{
  ProcessorInfo, number, AtMost, Descends, leading_masks, classes_after, drop_nums, core_masks,
}

-- The tests for a class, for a class and a mask, and for a class above another.
abbrev pub of_class : ℕ → ProcessorInfo → Bool
of_class class i = i.efficiency_class == class

abbrev pub of_both : ℕ → ℕ → ProcessorInfo → Bool
of_both class m i = (i.efficiency_class == class) && (i.mask == m)

abbrev pub above : ℕ → ProcessorInfo → Bool
above class i = ltb class i.efficiency_class

none_of_class :
    (n class : ℕ) (is : List ProcessorInfo)
    → AtMost n is
    → n < class
    → number (of_class class) is ≡ 0
none_of_class n class [] h less = refl
none_of_class n class (i ∷ is) (le, h) less = ground (arith, none_of_class n class is h less)

none_of_both :
    (n class m : ℕ) (is : List ProcessorInfo)
    → AtMost n is
    → n < class
    → number (of_both class m) is ≡ 0
none_of_both n class m [] h less = refl
none_of_both n class m (i ∷ is) (le, h) less = ground (arith, none_of_both n class m is h less)

number-le : (test : ProcessorInfo → Bool) (is : List ProcessorInfo) → number test is ≤ length is
number-le test [] = omega arith
number-le test (i ∷ is) = ground (arith, number-le test is)

-- The front of the list is of the greatest class.
leading_masks-count :
    (top m : ℕ) (is : List ProcessorInfo)
    → AtMost top is
    → Descends is
    → count m (leading_masks top is) ≡ number (of_both top m) is
unfolding leading_masks
leading_masks-count top m [] h d = refl
leading_masks-count top m (i ∷ is) (le, h) (below, d) =
    elim (Bool-cases (i.efficiency_class == top)) [
      | inl same ↦ ground (arith, same, leading_masks-count top m is h d)
      | inr other ↦
          let less : i.efficiency_class < top = ground (arith, other, le) in
          rw other (ground (arith, none_of_both i.efficiency_class top m is below less))
    ]

leading_masks-length :
    (top : ℕ) (is : List ProcessorInfo)
    → AtMost top is
    → Descends is
    → length (leading_masks top is) ≡ number (of_class top) is
unfolding leading_masks
leading_masks-length top [] h d = refl
leading_masks-length top (i ∷ is) (le, h) (below, d) =
    elim (Bool-cases (i.efficiency_class == top)) [
      | inl same ↦ ground (arith, same, leading_masks-length top is h d)
      | inr other ↦
          let less : i.efficiency_class < top = ground (arith, other, le) in
          rw other (ground (arith, none_of_class i.efficiency_class top is below less))
    ]

all_classes :
    (x : ℕ) (is : List ProcessorInfo) → count x (classes_after 0 is) ≡ number (of_class x) is
unfolding classes_after
all_classes x [] = refl
all_classes x (i ∷ is) = ground (arith, all_classes x is)

classes_after-count :
    (top x : ℕ) (is : List ProcessorInfo)
    → AtMost top is
    → Descends is
    → count x (classes_after (length (leading_masks top is)) is)
      ≡ (if x == top then 0 else number (of_class x) is)
unfolding leading_masks classes_after
classes_after-count top x [] h d = ground arith
classes_after-count top x (i ∷ is) (le, h) (below, d) =
    elim (Bool-cases (i.efficiency_class == top)) [
      | inl same ↦ rw same (ground (arith, same, classes_after-count top x is h d))
      | inr other ↦
          let less : i.efficiency_class < top = ground (arith, other, le) in
          rw other
            (ground (arith, all_classes x is, none_of_class i.efficiency_class top is below less))
    ]

-- The greatest class of some processors.
abbrev pub Top : ℕ → List ProcessorInfo → Type 0
Top top is = (0 < number (of_class top) is) × (number (above top) is ≡ 0)

none_above-AtMost : (top : ℕ) (is : List ProcessorInfo) → number (above top) is ≡ 0 → AtMost top is
none_above-AtMost top [] h = tt
none_above-AtMost top (i ∷ is) h = (ground (arith, h), none_above-AtMost top is (ground (arith, h)))

-- The front of sorted processors is of the greatest class.
front :
    (top : ℕ) (i : ProcessorInfo) (is : List ProcessorInfo)
    → Top top (i ∷ is)
    → Descends (i ∷ is)
    → i.efficiency_class ≡ top
front top i is (some_top, none_above) (below, d) =
    let at_most = none_above-AtMost top (i ∷ is) none_above in
    elim (Bool-cases (i.efficiency_class == top)) [
      | inl same ↦ ground (arith, same)
      | inr other ↦
          let less : i.efficiency_class < top = ground (arith, other, at_most.0) in
          absurd
            (ground (arith, some_top, other, none_of_class i.efficiency_class top is below less))
    ]

fewer_dropped :
    (masks : List ℕ) (is : List ProcessorInfo)
    → length masks < length is
    → drop_nums masks is ≡ length masks
fewer_dropped masks is fewer = ground arith

-- Of sorted processors, the first list has the masks of those of the greatest class; the second has
-- the classes of the others, if there are others.
abbrev pub Lists : ℕ → List ProcessorInfo → (masks classes : List ℕ) → Type 0
Lists top is masks classes =
    ((m : ℕ) → count m masks ≡ number (of_both top m) is)
    × (number (of_class top) is < length is
        → (x : ℕ) → count x classes ≡ (if x == top then 0 else number (of_class x) is))

pub core_masks_lem :
    (top : ℕ) (is : List ProcessorInfo)
    → Top top is
    → Descends is
    → (masks : List ℕ) × (classes : List ℕ) × (core_masks is ≡ some (masks, classes))
      × Lists top is masks classes
unfolding core_masks
core_masks_lem top [] (some_top, none_above) d = absurd (omega arith)
core_masks_lem top (i ∷ is) t d =
    let at_front = front top i is t d in
    let masks = leading_masks i.efficiency_class (i ∷ is) in
    let at_most = none_above-AtMost top (i ∷ is) t.1 in
    let same : masks ≡ leading_masks top (i ∷ is) = ap (λ c. leading_masks c (i ∷ is)) at_front in
    (
      masks,
      classes_after (drop_nums masks (i ∷ is)) (i ∷ is),
      refl,
      (
        λ m. ap (count m) same ∙ leading_masks-count top m (i ∷ is) at_most d,
        λ fewer x.
            let len : length masks ≡ number (of_class top) (i ∷ is) =
              ap (λ ls. length ls) same ∙ leading_masks-length top (i ∷ is) at_most d in
            let dropped : drop_nums masks (i ∷ is) ≡ length (leading_masks top (i ∷ is)) =
              fewer_dropped masks (i ∷ is) (subst (λ n. n < length (i ∷ is)) (sym len) fewer)
              ∙ ap (λ ls. length ls) same in
            ap (λ n. count x (classes_after n (i ∷ is))) dropped
            ∙ classes_after-count top x (i ∷ is) at_most d,
      ),
    )
