-- ===== src/Pool/WorkerLoop/Held.antt =====
-- The tasks in the local queues, and what each call of one does to their number.
use mathlib.Core.Path.{subst}
use mathlib.Core.Option.{some-injective}
use engi_cs.Base.{
  ℕ, zero, suc, ◌+◌, ◌^◌, ◌<◌, ◌≡◌, ◌≢◌, refl, ap, inl, inr, Bool, some, List, [], ◌∷◌, get_elem?,
  set, count, count-append, ◌==◌, if◌then◌else◌, Bool-cases, arith,
}
use engi_cs.Deque
use engi_cs.Deque.{Wsq}
use engi_cs.Deque.Refine.{contents, IsValid, push_refines, pop_refines, steal_refines}
use engi_cs.Pool.WorkerLoop.{steal_from}

-- Every local queue is valid, and no `bottom` is at its greatest value.
abbrev pub Ready : List Wsq → Type 0
Ready [] = Unit
Ready (q ∷ qs) = IsValid q × (q.bottom + 1 < 2 ^ 64) × Ready qs

abbrev pub AllValid : List Wsq → Type 0
AllValid [] = Unit
AllValid (q ∷ qs) = IsValid q × AllValid qs

-- how often a task stands in the local queues
abbrev pub held : ℕ → List Wsq → ℕ
held y [] = 0
held y (q ∷ qs) = count y (contents q) + held y qs

abbrev pub one : ℕ → ℕ → ℕ
one y x = if y == x then 1 else 0

pub Ready-AllValid : (qs : List Wsq) → Ready qs → AllValid qs
Ready-AllValid [] r = tt
Ready-AllValid (q ∷ qs) (v, b, r) = (v, Ready-AllValid qs r)

-- The queue at an index, and a change of it.
pub at-IsValid :
    (qs : List Wsq) (i : ℕ) {q : Wsq}
    → get_elem? qs i ≡ some q
    → Ready qs
    → IsValid q × (q.bottom + 1 < 2 ^ 64)
at-IsValid [] i e r = cc
at-IsValid (p ∷ qs) zero e (v, b, r) =
    subst (λ x. IsValid x × (x.bottom + 1 < 2 ^ 64)) (some-injective _ _ e) (v, b)
at-IsValid (p ∷ qs) (suc i) e (v, b, r) = at-IsValid qs i e r

pub AllValid-set :
    (qs : List Wsq) (i : ℕ) (q : Wsq) → AllValid qs → IsValid q → AllValid (set qs i q)
AllValid-set [] i q r v = tt
AllValid-set (p ∷ qs) zero q (u, r) v = (v, r)
AllValid-set (p ∷ qs) (suc i) q (u, r) v = (u, AllValid-set qs i q r v)

pub held-set :
    (y : ℕ) (qs : List Wsq) (i : ℕ) {p : Wsq} (q : Wsq)
    → get_elem? qs i ≡ some p
    → held y (set qs i q) + count y (contents p) ≡ held y qs + count y (contents q)
held-set y [] i q e = cc
held-set y (r ∷ qs) zero q e = omega (arith, ap (λ x. count y (contents x)) (some-injective _ _ e))
held-set y (r ∷ qs) (suc i) q e = omega (arith, held-set y qs i q e)

-- `Push`, `Pop` and `Steal` counted: for a task other than the null pointer.
pub count-push :
    (x : ℕ) {q : Wsq}
    → IsValid q
    → q.bottom + 1 < 2 ^ 64
    → (ok : Bool) × (r : Wsq) × (Deque.push q x ≡ some (ok, r))
      × IsValid r
      × ((y : ℕ) → count y (contents r) ≡ (if ok then one y x else 0) + count y (contents q))
count-push x {q} v b =
    let (ok, r, run, valid, spec) = push_refines x v b in
    (ok, r, run, valid, λ y. ground (arith, count-append y (contents q) (x ∷ [])))

pub count-pop :
    {q : Wsq}
    → IsValid q
    → (x : ℕ) × (r : Wsq) × (Deque.pop q ≡ some (x, r))
      × IsValid r
      × ((y : ℕ) → y ≢ 0 → count y (contents q) ≡ one y x + count y (contents r))
count-pop {q} v =
    let (x, r, run, valid, spec) = pop_refines v in
    (x, r, run, valid, λ y h. ground (arith, count-append y (contents r) (x ∷ [])))

pub count-steal :
    (spurious : Bool) {q : Wsq}
    → IsValid q
    → (x : ℕ) × (r : Wsq) × (Deque.steal q spurious ≡ some (x, r))
      × IsValid r
      × ((y : ℕ) → y ≢ 0 → count y (contents q) ≡ one y x + count y (contents r))
count-steal spurious {q} v =
    let (x, r, run, valid, spec) = steal_refines spurious v in
    (x, r, run, valid, λ y h. ground arith)

-- `steal` in `Run` finds a task of another worker, or the null pointer; it loses none.
pub steal_from_count :
    (qs : List Wsq) (j self : ℕ) (spurious : ℕ → Bool)
    → AllValid qs
    → (x : ℕ) × (rs : List Wsq) × (steal_from qs j self spurious ≡ some (x, rs))
      × AllValid rs
      × ((y : ℕ) → y ≢ 0 → held y qs ≡ one y x + held y rs)
unfolding steal_from
steal_from_count [] j self spurious v = (0, [], refl, tt, λ y h. ground arith)
steal_from_count (q ∷ qs) j self spurious (v, vs) =
    let (x, rs, run, valid, same) = steal_from_count qs (suc j) self spurious vs in
    elim (Bool-cases (j == self)) [
      | inl mine ↦ (x, q ∷ rs, rw (mine, run), (v, valid), λ y h. omega (arith, same y h))
      | inr other ↦
          let (z, r, took, r_valid, r_same) = count-steal (spurious j) v in
          elim (Bool-cases (z == 0)) [
            | inl nothing ↦ (
              x,
              r ∷ rs,
              rw (other, took, nothing, run),
              (r_valid, valid),
              λ y h. ground (arith, same y h, r_same y h),
            )
            | inr found ↦ (
              z,
              r ∷ qs,
              rw (other, took, found),
              (r_valid, vs),
              λ y h. omega (arith, r_same y h),
            )
          ]
    ]
