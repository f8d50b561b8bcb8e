-- ===== src/Signal/Atomic.antt =====
-- ecs/core/utils/single.h: what the steps of `Add`, `Remove` and `Clear` do to the callbacks.
use engi_cs.Base.{
  ℕ, ◌≤◌, ◌<◌, ◌≡◌, refl, ap, ◌∙◌, ◌⊎◌, inl, inr, Bool, true, false, not, ◌&&◌, Bool-cases, List,
  [], ◌∷◌, ◌++◌, ◌==◌, if◌then◌else◌, update, arith,
}
use engi_cs.Signal.{Elements, Signal, has, without, clear}
use engi_cs.Signal.Threads.{
  Caller, idle, add_started, add_named, add_loaded, added, remove_started, remove_loaded, removed,
  ready, Effect, quiet, appended, erased, cleared, step, System, Event, moves, adds, removes,
  clears, exec, run,
}

-- What the effects do to a list, one after the other.
unfoldable pub apply : Effect → Elements → Elements
apply quiet es = es
apply (appended id cb) es = es ++ ((id, cb) ∷ [])
apply (erased token) es = without token es
apply cleared es = []

unfoldable pub replay : List Effect → Elements → Elements
replay [] es = es
replay (f ∷ fs) es = replay fs (apply f es)

-- A list that a thread has loaded is the signal's, unless that has been replaced.
Loaded : Signal → Caller → Type 0
Loaded s (add_loaded id cb version old) =
    (version ≤ s.version) × (s.version ≡ version → old ≡ s.callbacks)
Loaded s (remove_loaded token version old) =
    (version ≤ s.version) × (s.version ≡ version → old ≡ s.callbacks)
Loaded s _ = Unit

Keeps : Signal → Signal → Type 0
Keeps s s' = ((s'.version ≡ s.version) × (s'.callbacks ≡ s.callbacks)) ⊎ (s.version < s'.version)

Loaded-Keeps : (s s' : Signal) (c : Caller) → Loaded s c → Keeps s s' → Loaded s' c
unfolding Loaded Keeps
Loaded-Keeps s s' (add_loaded id cb version old) l k = ground arith
Loaded-Keeps s s' (remove_loaded token version old) l k = ground arith
Loaded-Keeps s s' idle l k = record {}
Loaded-Keeps s s' (add_started cb) l k = record {}
Loaded-Keeps s s' (add_named id cb) l k = record {}
Loaded-Keeps s s' (added id) l k = record {}
Loaded-Keeps s s' (remove_started token) l k = record {}
Loaded-Keeps s s' (removed b) l k = record {}

same_version : {a b : ℕ} (spurious : Bool) → (not spurious && a == b) ≡ true → a ≡ b
same_version spurious h = ground arith

module _ (after_move : ℕ → ℕ) where
  Good : Signal → Effect × Signal × Caller → Type 0
  Good s (f, s', c') = (s'.callbacks ≡ apply f s.callbacks) × Loaded s' c' × Keeps s s'

  step-Good :
      (s : Signal) (spurious : Bool) (c : Caller)
      → Loaded s c
      → Good s (step after_move s spurious c)
  unfolding Good Loaded Keeps step apply
  step-Good s spurious idle l = (refl, record {}, inl (refl, refl))
  step-Good s spurious (add_started cb) l = (refl, record {}, inl (refl, refl))
  step-Good s spurious (add_named id cb) l = (refl, (omega arith, λ e. refl), inl (refl, refl))
  step-Good s spurious (add_loaded id cb version old) l =
      elim (Bool-cases (not spurious && s.version == version)) [
        | inl won ↦ rw won (
          ap (λ es. es ++ ((id, cb) ∷ [])) (l.1 (same_version spurious won)),
          record {},
          inr (omega arith),
        )
        | inr lost ↦ rw lost (refl, record {}, inl (refl, refl))
      ]
  step-Good s spurious (added id) l = (refl, record {}, inl (refl, refl))
  step-Good s spurious (remove_started token) l = elim (Bool-cases (token == 0)) [
    | inl none_given ↦ rw none_given (refl, record {}, inl (refl, refl))
    | inr given ↦ elim (Bool-cases (has token s.callbacks)) [
      | inl there ↦ rw (given, there) (refl, (omega arith, λ e. refl), inl (refl, refl))
      | inr missing ↦ rw (given, missing) (refl, record {}, inl (refl, refl))
    ]
  ]
  step-Good s spurious (remove_loaded token version old) l =
      elim (Bool-cases (not spurious && s.version == version)) [
        | inl won ↦
            rw won
              (ap (without token) (l.1 (same_version spurious won)), record {}, inr (omega arith))
        | inr lost ↦ rw lost (refl, record {}, inl (refl, refl))
      ]
  step-Good s spurious (removed b) l = (refl, record {}, inl (refl, refl))

  -- No thread holds a list that is taken for the signal's and is not.
  record IsValid (s : System after_move) : Type 0 where
    loaded : (i : ℕ) → Loaded s.signal (s.callers i)

  Done : System after_move → Effect × System after_move → Type 0
  Done s (f, s') = (s'.signal.callbacks ≡ apply f s.signal.callbacks) × IsValid s'

  update-Loaded :
      (s s' : Signal) (callers : ℕ → Caller) (i : ℕ) (c : Caller)
      → ((j : ℕ) → Loaded s (callers j))
      → Keeps s s'
      → Loaded s' c
      → (j : ℕ) → Loaded s' (update callers i c j)
  update-Loaded s s' callers i c all k l j = elim (Bool-cases (j == i)) [
    | inl here ↦ rw here l
    | inr other ↦ rw other (Loaded-Keeps s s' (callers j) (all j) k)
  ]

  started-Loaded :
      (s : Signal) (c new : Caller) (b : Bool)
      → Loaded s c
      → Loaded s new
      → Loaded s (if b then new else c)
  started-Loaded s c new true l l' = l'
  started-Loaded s c new false l l' = l

  exec-Done :
      (s : System after_move) (e : Event after_move) → IsValid s → Done s (exec after_move s e)
  unfolding Done Good exec Loaded Keeps apply clear
  exec-Done s (moves i spurious) v =
      let (said, mine, keeps) = step-Good s.signal spurious (s.callers i) (v.loaded i) in
      (
        said,
        record {
          loaded =
              update-Loaded s.signal (step after_move s.signal spurious (s.callers i)).1 s.callers i
                _ v.loaded keeps mine;
        },
      )
  exec-Done s (adds i cb) v = (
    refl,
    record {
      loaded = update-Loaded s.signal s.signal s.callers i _ v.loaded (inl (refl, refl)) (
          started-Loaded s.signal (s.callers i) (add_started cb) (ready (s.callers i)) (v.loaded i)
            (record {}));
    },
  )
  exec-Done s (removes i token) v = (
    refl,
    record {
      loaded = update-Loaded s.signal s.signal s.callers i _ v.loaded (inl (refl, refl)) (
          started-Loaded s.signal (s.callers i) (remove_started token) (ready (s.callers i))
            (v.loaded i) (record {}));
    },
  )
  exec-Done s clears v = (
    refl,
    record {
      loaded = λ i.
          Loaded-Keeps s.signal (clear s.signal) (s.callers i) (v.loaded i) (inr (omega arith));
    },
  )

  run-replay :
      (es : List (Event after_move)) (s : System after_move)
      → IsValid s
      → let (fs, s') = run after_move s es in s'.signal.callbacks ≡ replay fs s.signal.callbacks
  unfolding run replay Done
  run-replay [] s v = refl
  run-replay (e ∷ es) s v =
      let (said, v') = exec-Done s e v in
      run-replay es (exec after_move s e).1 v'
      ∙ ap (replay (run after_move (exec after_move s e).1 es).0) said

  -- Under any interleaving of any number of threads that add and remove, with clears in between,
  -- from a signal that no thread uses yet, the callbacks at the end are those that the successful
  -- calls leave when each is applied at once, at its compare-exchange, in their order: no call
  -- overwrites what another has stored.
  pub calls_atomic :
      (es : List (Event after_move)) (signal : Signal)
      → let (fs, s) = run after_move (record { signal = signal; callers = λ i. idle }) es in
        s.signal.callbacks ≡ replay fs signal.callbacks
  unfolding Loaded
  calls_atomic es signal =
      run-replay es (record { signal = signal; callers = λ i. idle })
        (record { loaded = λ i. record {} })
