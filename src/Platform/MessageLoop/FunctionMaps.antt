-- ===== src/Platform/MessageLoop/FunctionMaps.antt =====
-- The containers of the message loop as functions.
use engi_cs.Base.{
  ℕ, ◌+◌, ◌≡◌, refl, ◌&&◌, Option, none, some, List, [], ◌∷◌, ◌++◌, ◌==◌, inl, inr, if◌then◌else◌,
  count, count-append, arith, Bool-cases,
}
use engi_cs.Platform.MessageLoop.Containers.{Maps}
use engi_cs.Platform.MessageLoop.Schedulers.{Scheduler}

abbrev pub put : {A : Type 0} → (ℕ → A) → ℕ → A → ℕ → A
put f t a u = if t == u then a else f u

abbrev pub place : (ℕ → Option Scheduler) → ℕ → Scheduler → Option Scheduler → ℕ → Option Scheduler
place s t v none = put s t (some v)
place s t v (some w) = s

pub find-place :
    (s : ℕ → Option Scheduler) (t : ℕ) (v : Scheduler) (u : ℕ)
    → s t ≡ none
    → place s t v (s t) u ≡ (if t == u then some v else s u)
find-place s t v u e = rw e refl

pub place_present :
    (s : ℕ → Option Scheduler) (t : ℕ) (v w : Scheduler) → s t ≡ some w → place s t v (s t) ≡ s
place_present s t v w e = rw e refl

abbrev pub enter : (ℕ → List ℕ) → ℕ → ℕ → ℕ → List ℕ
enter i m t n = if m == n then i n ++ (t ∷ []) else i n

pub count-enter :
    (i : ℕ → List ℕ) (m t n u : ℕ)
    → count u (enter i m t n) ≡ (if m == n && u == t then 1 else 0) + count u (i n)
count-enter i m t n u = elim (Bool-cases (m == n)) [
  | inl p ↦ rw p (omega (arith, count-append u (i n) (t ∷ [])))
  | inr p ↦ rw p (omega arith)
]

abbrev pub function_maps : Maps Scheduler
function_maps = record {
  Storage = ℕ → Option Scheduler;
  no_values = λ t. none;
  find = λ s t. s t;
  emplace = λ s t v. place s t v (s t);
  assign = λ s t v. put s t (some v);
  find-no_values = λ t. refl;
  find-emplace = find-place;
  emplace_present = place_present;
  find-assign = λ s t v w u e. refl;
  Index = ℕ → List ℕ;
  no_entries = λ m. [];
  equal_range = λ i m. i m;
  insert = enter;
  count-no_entries = λ m t. refl;
  count-insert = count-enter;
}
