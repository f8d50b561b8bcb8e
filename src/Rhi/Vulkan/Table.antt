-- ===== src/Rhi/Vulkan/Table.antt =====
-- The two shapes of a conversion in ecs/rhi/vulkan/defs.cpp: a switch on a number, and a sequence
-- of `if (bits & from) result |= to;`. Flags are given by their bits.
use mathlib.Core.Path.{fun_ext}
use engi_cs.Base.{
  ℕ, ◌≡◌, ap, ◌∙◌, Bool, true, false, ◌==◌, ◌&&◌, ◌||◌, if◌then◌else◌, Option, some, List, [], ◌∷◌,
  update, arith,
}

-- `default` is none where the source aborts or says that the point is not reached.
abbrev pub switch_on :
    {Name E : Type 0} → (Name → ℕ) → List (Name × E) → (default : Option E) → ℕ → Option E
switch_on number [] default n = default
switch_on number ((v, e) ∷ cases) default n =
    if n == number v then some e else switch_on number cases default n

abbrev pub translate : List (ℕ × ℕ) → (bits result : ℕ → Bool) → ℕ → Bool
translate [] bits result = result
translate ((from, to) ∷ rows) bits result =
    translate rows bits (if bits from then update result to true else result)

-- Whether a row of the table sets bit `j`.
abbrev pub sets : List (ℕ × ℕ) → (ℕ → Bool) → ℕ → Bool
sets [] bits j = false
sets ((from, to) ∷ rows) bits j = (bits from && j == to) || sets rows bits j

-- A bit of the result was set at the start, or a row of the table sets it.
pub translate_lem :
    (rows : List (ℕ × ℕ)) (bits result : ℕ → Bool) (j : ℕ)
    → translate rows bits result j ≡ (result j || sets rows bits j)
translate_lem [] bits result j = ground arith
translate_lem ((from, to) ∷ rows) bits result j =
    translate_lem rows bits (if bits from then update result to true else result) j
    ∙ one_row (bits from) result j to (sets rows bits j)
  where
    one_row :
        (b : Bool) (result : ℕ → Bool) (j to : ℕ) (later : Bool)
        → ((if b then update result to true else result) j || later)
          ≡ (result j || ((b && j == to) || later))
    one_row b result j to later = ground arith

sets_ap :
    (rows : List (ℕ × ℕ)) {f g : ℕ → Bool}
    → ((k : ℕ) → f k ≡ g k)
    → (j : ℕ) → sets rows f j ≡ sets rows g j
sets_ap rows h j = ap (λ f. sets rows f j) (fun_ext h)

-- The bits after two tables, the first from no bit at all.
pub translate_twice :
    (rows later : List (ℕ × ℕ)) (bits result : ℕ → Bool) (j : ℕ)
    → translate later (translate rows bits (λ k. false)) result j
      ≡ (result j || sets later (sets rows bits) j)
translate_twice rows later bits result j =
    translate_lem later _ result j
    ∙ ap (λ b. result j || b) (sets_ap later (translate_lem rows bits (λ k. false)) j)
