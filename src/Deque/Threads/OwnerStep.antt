-- ===== src/Deque/Threads/OwnerStep.antt =====
-- `Push` and `Pop` in deque.cpp: the accesses of the owner, against the invariant.
use native.Mathlib.Nat.{mod-lt}
use engi_cs.Base.{
  ℕ, suc, ◌+◌, ◌-◌, ◌%◌, ◌^◌, ◌≤◌, ◌<◌, ◌≡◌, refl, ap, ◌∙◌, inr, [], ◌∷◌, ◌++◌, get_or-set_self,
  get_or-set_ne, length-set, add64, dec_lt, arith,
}
use engi_cs.Deque.Threads.{
  Memory, Owner, push_loaded, push_room, push_written, pop_loaded, pop_lowered, pop_restore,
  pop_read, pop_race, pop_finish, Act, quiet, owner_step, begin_push, begin_pop,
}
use engi_cs.Deque.Window.{window, length-window, window-set, window-snoc, slot_ne_of_lt}
use engi_cs.Deque.Threads.Inv.{limit, slot, tasks, Core, Keeps, Spec}

-- One access of the owner: what it keeps, and what it does to the tasks.
pub record Good (n : ℕ) (m : Memory) (o : Owner) (r : Act × Memory × Owner) : Type 0 where
  pub core : Core (suc n) r.1 r.2
  pub keeps : Keeps m (limit m o) r.1 (limit r.1 r.2)
  pub meaning : Spec m.capacity (tasks m o) r.0 (tasks r.1 r.2)
  pub same_capacity : r.1.capacity ≡ m.capacity

module _ (n : ℕ) (m : Memory) (few : suc n < 2 ^ 64) where
  refuse :
      (ptr b : ℕ)
      → Core n m (push_loaded ptr b)
      → Good n m (push_loaded ptr b) (owner_step m (push_loaded ptr b))
  unfolding owner_step
  refuse ptr b c = ground (arith, length-window m.buffer m.capacity m.top (m.bottom - m.top))

  write :
      (ptr b : ℕ)
      → Core n m (push_room ptr b)
      → Good n m (push_room ptr b) (owner_step m (push_room ptr b))
  unfolding owner_step
  write ptr b c = record {
    core = ground (
      arith,
      length-set m.buffer (b % m.capacity) ptr,
      get_or-set_self m.buffer (b % m.capacity) ptr 0,
      mod-lt b {m = m.capacity} (omega arith),
    );
    keeps = inr (
      refl,
      λ h. h,
      λ h.
          get_or-set_ne m.buffer ptr 0
            (slot_ne_of_lt m.capacity m.top b (omega arith) (omega arith)),
    );
    meaning =
        window-set m.buffer m.capacity m.top (m.bottom - m.top) b ptr (omega arith) (omega arith);
    same_capacity = refl;
  }

  publish :
      (ptr b : ℕ)
      → Core n m (push_written ptr b)
      → Good n m (push_written ptr b) (owner_step m (push_written ptr b))
  unfolding owner_step
  publish ptr b c = record {
    core = ground arith;
    keeps = ground arith;
    meaning = (
      omega (arith, length-window m.buffer m.capacity m.top (m.bottom - m.top)),
      ap (window m.buffer m.capacity m.top) size
          ∙ window-snoc m.buffer m.capacity m.top (m.bottom - m.top)
          ∙ ap (λ x. window m.buffer m.capacity m.top (m.bottom - m.top) ++ (x ∷ []))
              (ap (slot m) index ∙ c.owner.2),
    );
    same_capacity = refl;
  }
    where
      size : add64 b 1 - m.top ≡ suc (m.bottom - m.top)
      size = omega arith

      index : m.top + (m.bottom - m.top) ≡ b
      index = omega arith

  lower_bottom :
      (b : ℕ) → Core n m (pop_loaded b) → Good n m (pop_loaded b) (owner_step m (pop_loaded b))
  unfolding owner_step
  lower_bottom b c = ground arith

  compare_top :
      (b : ℕ) → Core n m (pop_lowered b) → Good n m (pop_lowered b) (owner_step m (pop_lowered b))
  unfolding owner_step
  compare_top b c = ground arith

  restore :
      (t : ℕ) → Core n m (pop_restore t) → Good n m (pop_restore t) (owner_step m (pop_restore t))
  unfolding owner_step
  restore t c = ground arith

  read : (b t : ℕ) → Core n m (pop_read b t) → Good n m (pop_read b t) (owner_step m (pop_read b t))
  unfolding owner_step
  read b t c = elim (dec_lt t b) [
    | yes below ↦ record {
      core = ground arith;
      keeps = ground arith;
      meaning = ground (arith, last_task (ground arith));
      same_capacity = ground arith;
    }
    | no equal ↦ ground arith
  ]
    where
      last_task :
          m.top ≤ b
          → window m.buffer m.capacity m.top (suc b - m.top)
            ≡ window m.buffer m.capacity m.top (m.bottom - m.top) ++ (slot m b ∷ [])
      last_task h =
          ap (window m.buffer m.capacity m.top) size
          ∙ window-snoc m.buffer m.capacity m.top (m.bottom - m.top)
          ∙ ap (λ i. window m.buffer m.capacity m.top (m.bottom - m.top) ++ (slot m i ∷ [])) index
        where
          size : suc b - m.top ≡ suc (m.bottom - m.top)
          size = omega arith

          index : m.top + (m.bottom - m.top) ≡ b
          index = omega arith

  race :
      (t task : ℕ)
      → Core n m (pop_race t task)
      → Good n m (pop_race t task) (owner_step m (pop_race t task))
  unfolding owner_step
  race t task c = ground arith

  finish : (t : ℕ) → Core n m (pop_finish t) → Good n m (pop_finish t) (owner_step m (pop_finish t))
  unfolding owner_step
  finish t c = ground arith

  pub owner_step-Good : (o : Owner) → Core n m o → Good n m o (owner_step m o)
  unfolding owner_step
  owner_step-Good Owner.idle c = ground arith
  owner_step-Good (push_loaded ptr b) c = refuse ptr b c
  owner_step-Good (push_room ptr b) c = write ptr b c
  owner_step-Good (push_written ptr b) c = publish ptr b c
  owner_step-Good (pop_loaded b) c = lower_bottom b c
  owner_step-Good (pop_lowered b) c = compare_top b c
  owner_step-Good (pop_restore t) c = restore t c
  owner_step-Good (pop_read b t) c = read b t c
  owner_step-Good (pop_race t task) c = race t task c
  owner_step-Good (pop_finish t) c = finish t c

  stay : (o : Owner) → Core n m o → Good n m o (quiet, m, o)
  stay o c = record {
    core = record {
      fits = c.fits;
      positive = c.positive;
      lower = c.lower;
      upper = c.upper;
      few = omega (arith, c.few);
      owner = c.owner;
    };
    keeps = inr (refl, λ h. h, λ _. refl);
    meaning = refl;
    same_capacity = refl;
  }

  pub begin_push-Good : (o : Owner) (ptr : ℕ) → Core n m o → Good n m o (begin_push m o ptr)
  unfolding begin_push
  begin_push-Good Owner.idle ptr c = ground arith
  begin_push-Good o ptr c = stay o c

  pub begin_pop-Good : (o : Owner) → Core n m o → Good n m o (begin_pop m o)
  unfolding begin_pop
  begin_pop-Good Owner.idle c = ground arith
  begin_pop-Good o c = stay o c
