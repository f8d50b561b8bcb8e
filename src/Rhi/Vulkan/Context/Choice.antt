-- ===== src/Rhi/Vulkan/Context/Choice.antt =====
-- ecs/rhi/vulkan/context.cpp: the queue that `GetQueueIndex` finds.
use mathlib.Core.Path.{subst}
use engi_cs.Base.{
  ℕ, zero, suc, ◌-◌, ◌^◌, ◌≡◌, ◌<◌, ◌≤◌, refl, sym, true, false, not, ◌&&◌, ◌⊎◌, inl, inr, List, [],
  ◌∷◌, ◌==◌, ltb, Bool-cases, arith,
}
use engi_cs.Rhi.Vulkan.Context.{Flags, popcount, covers, extra, search, no_index, get_queue_index}

abbrev pub Entries : Type 0
Entries = List (Flags × ℕ)

abbrev pub Has : (Flags × ℕ → Type 0) → Entries → Type 0
Has P [] = ⊥
Has P (e ∷ es) = P e ⊎ Has P es

abbrev pub All : (Flags × ℕ → Type 0) → Entries → Type 0
All P [] = Unit {0}
All P (e ∷ es) = P e × All P es

-- No entry that covers the required flags has fewer other flags than `n`.
abbrev pub AtLeast : Flags → ℕ → Entries → Type 0
AtLeast required n es = All (λ e. covers e.0 required ≡ true → n ≤ extra e.0 required) es

-- An entry with the index `r` covers the required flags, with fewer than `bound` other flags and no
-- more than any entry of `all` that covers them.
abbrev pub Chosen : Flags → (r bound : ℕ) → (all es : Entries) → Type 0
Chosen required r bound all es =
    Has
      (λ e.
        (e.1 ≡ r)
        × (covers e.0 required ≡ true)
        × (extra e.0 required < bound)
        × AtLeast required (extra e.0 required) all)
      es

popcount-le : (n : ℕ) (bits : Flags) → popcount n bits ≤ n
popcount-le zero bits = omega arith
popcount-le (suc n) bits = ground (arith, popcount-le n bits)

pub extra-le : (flags required : Flags) → extra flags required ≤ 8
unfolding extra
extra-le flags required = popcount-le 8 (λ j. flags j && not (required j))

AtLeast-mono :
    (required : Flags) (n m : ℕ) (es : Entries)
    → n ≤ m
    → AtLeast required m es
    → AtLeast required n es
AtLeast-mono required n m [] le h = tt
AtLeast-mono required n m (e ∷ es) le h =
    (λ c. omega (arith, h.0 c), AtLeast-mono required n m es le h.1)

AtLeast-zero : (required : Flags) (es : Entries) → AtLeast required 0 es
AtLeast-zero required [] = tt
AtLeast-zero required (e ∷ es) = (λ c. omega arith, AtLeast-zero required es)

-- An entry that is chosen among the rest is chosen with one more that has no fewer other flags.
Chosen-cons :
    (required : Flags) (r n m : ℕ) (e : Flags × ℕ) (all es : Entries)
    → n ≤ m
    → (covers e.0 required ≡ true → n ≤ extra e.0 required)
    → Chosen required r n all es
    → Chosen required r m (e ∷ all) es
Chosen-cons required r n m e all (x ∷ es) le more (inl (i, c, fewer, least)) =
    inl (i, c, omega arith, (λ cov. omega (arith, more cov), least))
Chosen-cons required r n m e all (x ∷ es) le more (inr h) =
    inr (Chosen-cons required r n m e all es le more h)
Chosen-cons required r n m e all [] le more h = absurd h

-- What a search finds: the index that it had, if no entry is better, or that of a best entry.
abbrev Found : Flags → (result count : ℕ) → Entries → ℕ → Type 0
Found required result count es r =
    ((r ≡ result) × AtLeast required count es) ⊎ Chosen required r count es es

-- The search after one entry.
search_next :
    (flags : Flags) (index : ℕ) (es : Entries) (required : Flags) (result count : ℕ)
    → let after = search ((flags, index) ∷ es) required result count in
      (covers flags required ≡ false → after ≡ search es required result count)
      × (covers flags required ≡ true
          → ((extra flags required == 0) ≡ true → after ≡ index)
            × ((extra flags required == 0) ≡ false
                → (ltb (extra flags required) count ≡ true
                    → after ≡ search es required index (extra flags required))
                  × (ltb (extra flags required) count ≡ false
                      → after ≡ search es required result count)))
unfolding search
search_next flags index es required result count = (
  λ u. rw u refl,
  λ c. (λ z. rw (c, z) refl, λ z. (λ b. rw (c, z, b) refl, λ b. rw (c, z, b) refl)),
)

-- The entry in front is no better than the index that the search had.
passed :
    (flags : Flags) (index : ℕ) (es : Entries) (required : Flags) (result count r : ℕ)
    → (covers flags required ≡ true → count ≤ extra flags required)
    → Found required result count es r
    → Found required result count ((flags, index) ∷ es) r
passed flags index es required result count r more (inl (same, least)) = inl (same, (more, least))
passed flags index es required result count r more (inr chosen) =
    inr (inr (Chosen-cons required r count count (flags, index) es es (omega arith) more chosen))

-- The entry in front is better.
taken :
    (flags : Flags) (index : ℕ) (es : Entries) (required : Flags) (result count r : ℕ)
    → covers flags required ≡ true
    → extra flags required < count
    → Found required index (extra flags required) es r
    → Found required result count ((flags, index) ∷ es) r
taken flags index es required result count r covered fewer (inl (same, least)) =
    inr (inl (sym same, covered, fewer, ((λ c. omega arith), least)))
taken flags index es required result count r covered fewer (inr chosen) = inr (
    inr (
      Chosen-cons required r (extra flags required) count (flags, index) es es (omega arith)
        (λ c. omega arith) chosen))

search_lem :
    (es : Entries) (required : Flags) (result count : ℕ)
    → 0 < count
    → Found required result count es (search es required result count)
unfolding search
search_lem [] required result count pos = inl (refl, tt)
search_lem ((flags, index) ∷ es) required result count pos =
    let found = λ (r : ℕ). Found required result count ((flags, index) ∷ es) r in
    let (uncovered_next, covered_next) = search_next flags index es required result count in
    let later = search_lem es required result count pos in
    elim (Bool-cases (covers flags required)) [
      | inr u ↦
          subst found (sym (uncovered_next u)) (
            passed flags index es required result count _ (λ c. absurd (ground (arith, c, u)))
              later)
      | inl c ↦ elim (Bool-cases (extra flags required == 0)) [
        | inl z ↦ subst found (sym ((covered_next c).0 z)) (
            taken flags index es required result count index c (ground (arith, z)) (
              inl (
                refl,
                AtLeast-mono required (extra flags required) 0 es (ground (arith, z))
                    (AtLeast-zero required es),
              )))
        | inr z ↦ elim (Bool-cases (ltb (extra flags required) count)) [
          | inl b ↦ subst found (sym (((covered_next c).1 z).0 b)) (
              taken flags index es required result count _ c (ground (arith, b))
                (search_lem es required index (extra flags required) (ground (arith, z))))
          | inr b ↦
              subst found (sym (((covered_next c).1 z).1 b))
                (passed flags index es required result count _ (λ c'. ground (arith, b)) later)
        ]
      ]
    ]

-- An entry with the index `r` covers the required flags, with no more other flags than any entry of
-- `all` that covers them.
abbrev pub Best : Flags → (r : ℕ) → (all es : Entries) → Type 0
Best required r all es =
    Has (λ e. (e.1 ≡ r) × (covers e.0 required ≡ true) × AtLeast required (extra e.0 required) all)
      es

none_covers :
    (required : Flags) (es : Entries)
    → AtLeast required (2 ^ 31 - 1) es
    → All (λ e. covers e.0 required ≡ false) es
none_covers required [] h = tt
none_covers required (e ∷ es) h = (
  elim (Bool-cases (covers e.0 required)) [
    | inl c ↦ absurd (omega (arith, h.0 c, extra-le e.0 required))
    | inr c ↦ c
  ],
  none_covers required es h.1,
)

Best-Chosen :
    (required : Flags) (r bound : ℕ) (all es : Entries)
    → Chosen required r bound all es
    → Best required r all es
Best-Chosen required r bound all [] h = absurd h
Best-Chosen required r bound all (e ∷ es) (inl (i, c, fewer, least)) = inl (i, c, least)
Best-Chosen required r bound all (e ∷ es) (inr h) = inr (Best-Chosen required r bound all es h)

-- `GetQueueIndex` gives the index of an entry that covers the required flags, with no more other
-- flags than any entry that covers them; if no entry covers them it gives the largest 32-bit number.
pub get_queue_index_lem :
    (es : Entries) (required : Flags)
    → ((get_queue_index es required ≡ no_index) × All (λ e. covers e.0 required ≡ false) es)
      ⊎ Best required (get_queue_index es required) es es
unfolding get_queue_index
get_queue_index_lem es required =
    elim (search_lem es required no_index (2 ^ 31 - 1) (omega arith)) [
      | inl (same, least) ↦ inl (same, none_covers required es least)
      | inr chosen ↦ inr (
          Best-Chosen required (search es required no_index (2 ^ 31 - 1)) (2 ^ 31 - 1) es es chosen)
    ]
