-- ===== src/Deque/Refine.antt =====
-- `Push`, `Pop` and `Steal`, run without interruption, against a bounded double-ended queue.
use native.Mathlib.Nat.{mod-lt}
use engi_cs.Base.{
  ℕ, suc, ◌+◌, ◌-◌, ◌%◌, ◌^◌, ◌≤◌, ◌<◌, ◌≡◌, refl, sym, ap, ap₂, ◌∙◌, ◌⊎◌, ◌↔◌, inl, inr, Bool,
  true, false, none, some, List, [], ◌∷◌, ◌++◌, length, get_or, set, get_elem?-eq-get_or,
  length-set, ltb, if◌then◌else◌, dec_lt, arith, Bool-cases,
}
use engi_cs.Deque.{Wsq, load_slot, store_slot, push, pop, steal, empty}
use engi_cs.Deque.Window.{window, length-window, window-snoc, window-push}

-- The tasks in the deque, the oldest (at `top`) first.
abbrev pub contents : Wsq → List ℕ
contents q = elim q.buffer [ none ↦ [] | some xs ↦ window xs q.capacity q.top (q.bottom - q.top) ]

pub record IsValid (q : Wsq) : Type 0 where
  pub storage : List ℕ
  pub allocated : q.buffer ≡ some storage
  pub fits : q.capacity ≤ length storage
  pub positive : 0 < q.capacity
  pub ordered : q.top ≤ q.bottom
  pub bounded : q.bottom ≤ q.top + q.capacity
  pub small : q.bottom < 2 ^ 64

-- A bounded queue of tasks: what is pushed goes to the end, or is refused.
abbrev pub spec_push : ℕ → List ℕ → ℕ → Bool × List ℕ
spec_push n tasks x = if ltb (length tasks) n then (true, tasks ++ (x ∷ [])) else (false, tasks)

pub load_slot_lem :
    {q : Wsq} (v : IsValid q) (i : ℕ) → load_slot q i ≡ some (get_or v.storage (i % q.capacity) 0)
load_slot_lem {q} v i = ground (
  arith,
  get_elem?-eq-get_or v.storage (i % q.capacity) 0,
  mod-lt i {m = q.capacity} (omega arith),
)

pub store_slot_lem :
    {q : Wsq} (v : IsValid q) (i x : ℕ)
    → store_slot q i x ≡ some (record q { buffer = some (set v.storage (i % q.capacity) x) })
store_slot_lem {q} v i x = ground (arith, mod-lt i {m = q.capacity} (omega arith))

contents_lem :
    {q : Wsq} (v : IsValid q) → contents q ≡ window v.storage q.capacity q.top (q.bottom - q.top)
contents_lem v = ground arith

pub length-contents : {q : Wsq} → IsValid q → length (contents q) ≡ q.bottom - q.top
length-contents {q} v =
    ap length (contents_lem v) ∙ length-window v.storage q.capacity q.top (q.bottom - q.top)

-- the deque after a task has been accepted
abbrev pushed : (q : Wsq) → IsValid q → ℕ → Wsq
pushed q v x = record q {
  buffer = some (set v.storage (q.bottom % q.capacity) x);
  bottom = q.bottom + 1;
}

pushed-IsValid :
    {q : Wsq} (v : IsValid q) (x : ℕ)
    → q.bottom < q.top + q.capacity
    → q.bottom + 1 < 2 ^ 64
    → IsValid (pushed q v x)
pushed-IsValid {q} v x room small = record {
  storage = set v.storage (q.bottom % q.capacity) x;
  allocated = refl;
  fits = omega (arith, length-set v.storage (q.bottom % q.capacity) x);
  positive = omega arith;
  ordered = omega arith;
  bounded = omega arith;
  small = omega arith;
}

contents-pushed :
    {q : Wsq} (v : IsValid q) (x : ℕ)
    → q.bottom < q.top + q.capacity
    → contents (pushed q v x) ≡ contents q ++ (x ∷ [])
contents-pushed {q} v x room =
    ap₂ (λ i k. window (set v.storage (i % q.capacity) x) q.capacity q.top k) index size
    ∙ window-push v.storage q.capacity q.top (q.bottom - q.top) x (omega arith) (omega arith)
    ∙ ap (λ xs. xs ++ (x ∷ [])) (sym (contents_lem v))
  where
    index : q.bottom ≡ q.top + (q.bottom - q.top)
    index = omega arith

    size : q.bottom + 1 - q.top ≡ suc (q.bottom - q.top)
    size = omega arith

-- A valid deque whose `bottom` is not at its greatest value does what the bounded queue does:
-- `Push` never faults, reports whether there was room, and appends the task exactly then.
pub push_refines :
    (x : ℕ) {q : Wsq}
    → IsValid q
    → q.bottom + 1 < 2 ^ 64
    → (ok : Bool) × (r : Wsq) × (push q x ≡ some (ok, r))
      × IsValid r
      × ((ok, contents r) ≡ spec_push q.capacity (contents q) x)
unfolding push
push_refines x {q} v small = elim (dec_lt q.bottom (q.top + q.capacity)) [
  | yes room ↦ (
    true,
    pushed q v x,
    ground (arith, store_slot_lem v q.bottom x),
    pushed-IsValid v x room small,
    ground (arith, length-contents v, contents-pushed v x room),
  )
  | no full ↦ (false, q, ground arith, v, ground (arith, length-contents v))
]

-- `Push` by whether there is room: it appends the task, or changes nothing.
pub push_cases :
    (x : ℕ) {q : Wsq}
    → IsValid q
    → q.bottom + 1 < 2 ^ 64
    → ((r : Wsq) × (push q x ≡ some (true, r))
        × IsValid r
        × (length (contents q) < q.capacity)
        × (contents r ≡ contents q ++ (x ∷ [])))
      ⊎ ((push q x ≡ some (false, q)) × (q.capacity ≤ length (contents q)))
unfolding push
push_cases x {q} v small = elim (dec_lt q.bottom (q.top + q.capacity)) [
  | yes room ↦ inl (
    pushed q v x,
    ground (arith, store_slot_lem v q.bottom x),
    pushed-IsValid v x room small,
    ground (arith, length-contents v),
    contents-pushed v x room,
  )
  | no full ↦ inr (ground arith, ground (arith, length-contents v))
]

-- the deque after a task has been taken: `t` and `b` are the new ends
abbrev cut : Wsq → ℕ → ℕ → Wsq
cut q t b = record q { top = t; bottom = b }

cut-IsValid :
    {q : Wsq} → IsValid q → (t b : ℕ) → q.top ≤ t → t ≤ b → b ≤ q.bottom → IsValid (cut q t b)
cut-IsValid v t b lo mid hi = record {
  storage = v.storage;
  allocated = v.allocated;
  fits = v.fits;
  positive = v.positive;
  ordered = mid;
  bounded = omega arith;
  small = omega arith;
}

-- The last task of a deque that holds one.
contents-last :
    {q : Wsq} (v : IsValid q) (b : ℕ)
    → q.top ≤ b
    → suc b ≡ q.bottom
    → contents q ≡ contents (cut q q.top b) ++ (get_or v.storage (b % q.capacity) 0 ∷ [])
unfolding cut-IsValid
contents-last {q} v b some_task last =
    contents_lem v
    ∙ ap (window v.storage q.capacity q.top) size
    ∙ window-snoc v.storage q.capacity q.top (b - q.top)
    ∙ ap₂ (λ xs i. xs ++ (get_or v.storage (i % q.capacity) 0 ∷ []))
        (sym (contents_lem (cut-IsValid v q.top b (omega arith) (omega arith) (omega arith)))) index
  where
    size : q.bottom - q.top ≡ suc (b - q.top)
    size = omega arith

    index : q.top + (b - q.top) ≡ b
    index = omega arith

-- The first task of a deque that holds one.
contents-first :
    {q : Wsq} (v : IsValid q)
    → q.top < q.bottom
    → contents q ≡ get_or v.storage (q.top % q.capacity) 0 ∷ contents (cut q (q.top + 1) q.bottom)
unfolding cut-IsValid
contents-first {q} v some_task =
    contents_lem v
    ∙ ap (window v.storage q.capacity q.top) size
    ∙ ap₂ (λ t k. get_or v.storage (q.top % q.capacity) 0 ∷ window v.storage q.capacity t k) next
        refl
    ∙ ap (◌∷◌ (get_or v.storage (q.top % q.capacity) 0)) (
        sym (
          contents_lem
            (cut-IsValid v (q.top + 1) q.bottom (omega arith) (omega arith) (omega arith))))
  where
    size : q.bottom - q.top ≡ suc (q.bottom - (q.top + 1))
    size = omega arith

    next : suc q.top ≡ q.top + 1
    next = omega arith

contents-nil : {q : Wsq} (v : IsValid q) → q.bottom ≡ q.top → contents q ≡ []
contents-nil {q} v e = contents_lem v ∙ ap (window v.storage q.capacity q.top) none_left
  where
    none_left : q.bottom - q.top ≡ 0
    none_left = omega arith

-- What `Pop` may do to the list of tasks: take the last one, or find none.
abbrev pub Pops : List ℕ → ℕ → List ℕ → Type 0
Pops before task after =
    (before ≡ after ++ (task ∷ [])) ⊎ ((before ≡ []) × (task ≡ 0) × (after ≡ []))

-- `Pop` of a valid deque never faults. It returns the last task pushed and removes it; of an
-- empty deque it returns the null pointer, and the deque stays empty.
pub pop_refines :
    {q : Wsq}
    → IsValid q
    → (task : ℕ) × (r : Wsq) × (pop q ≡ some (task, r))
      × IsValid r
      × Pops (contents q) task (contents r)
unfolding pop
pop_refines {q} v = elim (dec_lt q.top q.bottom) [
  | yes h ↦ elim (dec_lt q.top (q.bottom - 1)) [
    | yes many ↦ (
      get_or v.storage ((q.bottom - 1) % q.capacity) 0,
      cut q q.top (q.bottom - 1),
      ground (arith, load_slot_lem v (q.bottom - 1)),
      cut-IsValid v q.top (q.bottom - 1) (omega arith) (omega arith) (omega arith),
      inl (contents-last v (q.bottom - 1) (omega arith) (omega arith)),
    )
    | no one ↦ (
      get_or v.storage ((q.bottom - 1) % q.capacity) 0,
      cut q (q.top + 1) (q.top + 1),
      ground (arith, load_slot_lem v (q.bottom - 1)),
      cut-IsValid v (q.top + 1) (q.top + 1) (omega arith) (omega arith) (omega arith),
      inl (
          contents-last v (q.bottom - 1) (omega arith) (omega arith)
          ∙ ap (λ xs. xs ++ (get_or v.storage ((q.bottom - 1) % q.capacity) 0 ∷ []))
              (contents-nil
                  (cut-IsValid v q.top (q.bottom - 1) (omega arith) (omega arith) (omega arith))
                  (omega arith)
                ∙ sym (
                    contents-nil
                      (cut-IsValid v (q.top + 1) (q.top + 1) (omega arith) (omega arith)
                        (omega arith))
                      refl))),
    )
  ]
  | no h ↦ (
    0,
    q,
    ground arith,
    v,
    inr (contents-nil v (omega arith), refl, contents-nil v (omega arith)),
  )
]

-- `Steal` of a valid deque never faults. Where it returns the null pointer of an empty deque, or
-- its compare-exchange fails, the deque is as it was; else it returns the oldest task and removes
-- it.
pub steal_refines :
    (spurious : Bool) {q : Wsq}
    → IsValid q
    → (task : ℕ) × (r : Wsq) × (steal q spurious ≡ some (task, r))
      × IsValid r
      × ((contents q ≡ []) × (task ≡ 0) × (contents r ≡ [])
          ⊎ (spurious ≡ true) × (task ≡ 0) × (contents r ≡ contents q)
          ⊎ (spurious ≡ false) × (contents q ≡ task ∷ contents r))
unfolding steal
steal_refines spurious {q} v = elim (dec_lt q.top q.bottom) [
  | no h ↦ (
    0,
    q,
    ground arith,
    v,
    inl (contents-nil v (omega arith), refl, contents-nil v (omega arith)),
  )
  | yes h ↦ elim (Bool-cases spurious) [
    | inl e ↦ (0, q, ground (arith, load_slot_lem v q.top), v, inr (inl (e, refl, refl)))
    | inr e ↦ (
      get_or v.storage (q.top % q.capacity) 0,
      cut q (q.top + 1) q.bottom,
      ground (arith, load_slot_lem v q.top),
      cut-IsValid v (q.top + 1) q.bottom (omega arith) (omega arith) (omega arith),
      inr (inr (e, contents-first v h)),
    )
  ]
]

-- `Empty` of a valid deque tells whether there is no task.
pub empty_iff : {q : Wsq} → IsValid q → (empty q ≡ true) ↔ (contents q ≡ [])
unfolding empty
empty_iff v = ground (arith, length-contents v)
