-- ===== src/Deque/Threads/Inv.antt =====
-- What holds of the shared memory and of each thread's locals between any two accesses.
use engi_cs.Base.{
  ℕ, suc, ◌+◌, ◌-◌, ◌%◌, ◌≤◌, ◌<◌, ◌≡◌, sym, ap, ◌∙◌, ◌⊎◌, inl, inr, List, [], ◌∷◌, ◌++◌, length,
  get_or, ltb, if◌then◌else◌, arith,
}
use engi_cs.Deque.Threads.{
  Memory, Owner, push_loaded, push_room, push_written, pop_loaded, pop_lowered, pop_restore,
  pop_read, pop_race, pop_finish, Thief, got_top, got_bottom, got_task, Act, quiet, accepted,
  refused, took, stole, found_none,
}
use engi_cs.Deque.Window.{window}

-- Where the tasks end: `Pop` lowers `bottom` before it is certain of the task.
abbrev pub end_of : Memory → Owner → ℕ
end_of m (pop_lowered b) = suc b
end_of m (pop_restore t) = t
end_of m (pop_read b t) = suc b
end_of m (pop_race t task) = suc t
end_of m (pop_finish t) = suc t
end_of m _ = m.bottom

-- Up to where a thief can still win: a task that `Pop` takes with no race is out of reach.
abbrev pub limit : Memory → Owner → ℕ
limit m (pop_lowered b) = suc b
limit m (pop_restore t) = t
limit m (pop_read b t) = if ltb t b then b else suc b
limit m (pop_race t task) = suc t
limit m (pop_finish t) = suc t
limit m _ = m.bottom

abbrev pub slot : Memory → ℕ → ℕ
slot m i = get_or m.buffer (i % m.capacity) 0

-- The tasks in the deque, the oldest first.
abbrev pub tasks : Memory → Owner → List ℕ
tasks m o = window m.buffer m.capacity m.top (end_of m o - m.top)

abbrev pub OwnerOk : Memory → Owner → Type 0
OwnerOk m Owner.idle = Unit
OwnerOk m (push_loaded ptr b) = b ≡ m.bottom
OwnerOk m (push_room ptr b) = (b ≡ m.bottom) × (b < m.top + m.capacity)
OwnerOk m (push_written ptr b) = (b ≡ m.bottom) × (b < m.top + m.capacity) × (slot m b ≡ ptr)
OwnerOk m (pop_loaded b) = (b ≡ m.bottom) × (0 < b)
OwnerOk m (pop_lowered b) = m.bottom ≡ b
OwnerOk m (pop_restore t) = (m.bottom + 1 ≡ t) × (m.top ≡ t)
OwnerOk m (pop_read b t) = (m.bottom ≡ b) × (t ≤ m.top) × (t ≤ b)
OwnerOk m (pop_race t task) = (m.bottom ≡ t) × (t ≤ m.top) × (task ≡ slot m t)
OwnerOk m (pop_finish t) = (m.bottom ≡ t) × (m.top ≡ suc t)

-- A thief whose `t` is still the value of `top` has a task that is there, and has read it.
abbrev pub ThiefOk : Memory → ℕ → Thief → Type 0
ThiefOk m lim Thief.idle = Unit
ThiefOk m lim (got_top t) = t ≤ m.top
ThiefOk m lim (got_bottom t) = (t ≤ m.top) × (m.top ≡ t → t < lim)
ThiefOk m lim (got_task t task) =
    (t ≤ m.top) × (m.top ≡ t → t < lim) × (m.top ≡ t → task ≡ slot m t)

-- The memory and the owner after `n` steps.
pub record Core (n : ℕ) (m : Memory) (o : Owner) : Type 0 where
  pub fits : m.capacity ≤ length m.buffer
  pub positive : 0 < m.capacity
  pub lower : m.top ≤ limit m o
  pub upper : end_of m o ≤ m.top + m.capacity
  pub few : end_of m o ≤ n
  pub owner : OwnerOk m o

-- A step of one thread that leaves the thieves' facts true.
abbrev pub Keeps : Memory → ℕ → Memory → ℕ → Type 0
Keeps m lim m' lim' =
    (m.top < m'.top)
    ⊎ (m'.top ≡ m.top) × (m.top < lim → m.top < lim') × (m.top < lim → slot m' m.top ≡ slot m m.top)

pub ThiefOk-Keeps :
    (m : Memory) (lim : ℕ) (m' : Memory) (lim' : ℕ) (p : Thief)
    → Keeps m lim m' lim'
    → ThiefOk m lim p
    → ThiefOk m' lim' p
ThiefOk-Keeps m lim m' lim' Thief.idle k ok = tt
ThiefOk-Keeps m lim m' lim' (got_top t) (inl up) ok = omega arith
ThiefOk-Keeps m lim m' lim' (got_top t) (inr k) ok = omega arith
ThiefOk-Keeps m lim m' lim' (got_bottom t) (inl up) ok = omega arith
ThiefOk-Keeps m lim m' lim' (got_bottom t) (inr (same, in_reach, kept)) ok =
    (omega arith, λ e. omega (arith, in_reach (omega (arith, ok.1 (sym same ∙ e)))))
ThiefOk-Keeps m lim m' lim' (got_task t task) (inl up) ok =
    (omega arith, omega arith, λ e. absurd (omega arith))
ThiefOk-Keeps m lim m' lim' (got_task t task) (inr (same, in_reach, kept)) ok = (
  omega arith,
  λ e. omega (arith, in_reach (below e)),
  λ e.
      let at : m.top ≡ t = sym same ∙ e in
      ok.2 at ∙ ap (slot m) (sym at) ∙ sym (kept (below e)) ∙ ap (slot m') at,
)
  where
    below : m'.top ≡ t → m.top < lim
    below e = omega (arith, ok.1 (sym same ∙ e))

-- What each decision does to a bounded queue of tasks.
abbrev pub Spec : ℕ → List ℕ → Act → List ℕ → Type 0
Spec n before quiet after = after ≡ before
Spec n before (accepted x) after = (length before < n) × (after ≡ before ++ (x ∷ []))
Spec n before (refused x) after = (length before ≡ n) × (after ≡ before)
Spec n before (took x) after = before ≡ after ++ (x ∷ [])
Spec n before (stole x) after = before ≡ x ∷ after
Spec n before found_none after = (before ≡ []) × (after ≡ [])
