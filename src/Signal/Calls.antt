-- ===== src/Signal/Calls.antt =====
-- ecs/core/utils/single.h: whole calls of `Add` and `Remove`.
use engi_cs.Base.{
  ℕ, zero, suc, ◌<◌, ◌≡◌, refl, ap, ◌∙◌, Bool, true, false, List, [], ◌∷◌, ◌++◌, ◌==◌, ==_iff,
  add64, arith,
}
use engi_cs.Signal.{Elements, Signal, has, without, store}
use engi_cs.Signal.Threads.{add_started, add_named, added, remove_started, removed, step, alone}

-- The accesses of a call of `Add` from its load on: `n` compare-exchanges that fail, and one that
-- does not.
abbrev pub attempts : ℕ → List Bool
attempts zero = false ∷ false ∷ []
attempts (suc n) = false ∷ true ∷ attempts n

abbrev pub iterate : (ℕ → ℕ) → ℕ → ℕ → ℕ
iterate f zero x = x
iterate f (suc n) x = iterate f n (f x)

same_number : (n : ℕ) → (n == n) ≡ true
same_number n = (==_iff n n).1 refl

without-snoc :
    (token cb : ℕ) (es : Elements)
    → has token es ≡ false
    → without token (es ++ ((token, cb) ∷ [])) ≡ es
unfolding has without
without-snoc token cb [] h = rw (same_number token) refl
without-snoc token cb ((id, cb') ∷ es) h =
    let other : (id == token) ≡ false = ground arith in
    let later : has token es ≡ false = ground arith in
    rw other (ap (λ l. (id, cb') ∷ l) (without-snoc token cb es later))

has-snoc : (token cb : ℕ) (es : Elements) → has token (es ++ ((token, cb) ∷ [])) ≡ true
unfolding has
has-snoc token cb [] = rw (same_number token) refl
has-snoc token cb ((id, cb') ∷ es) = ground (arith, has-snoc token cb es)

module _ (after_move : ℕ → ℕ) where
  attempts_lem :
      (n id cb : ℕ) (s : Signal)
      → alone after_move s (add_named id cb) (attempts n)
        ≡ (store s (s.callbacks ++ ((id, iterate after_move n cb) ∷ [])), added id)
  unfolding alone step
  attempts_lem zero id cb s = rw (same_number s.version) refl
  attempts_lem (suc n) id cb s = attempts_lem n id (after_move cb) s

  -- `Add` with no other thread at work returns after any number `n` of compare-exchanges that fail:
  -- its token is the next one, and the element with this token stands last. Its callback is the one
  -- given only if none failed: the failures each move from it, so that what is stored is what `n`
  -- moves have left.
  pub add_lem :
      (n cb : ℕ) (s : Signal)
      → let (s', c) = alone after_move s (add_started cb) (false ∷ attempts n) in
        (c ≡ added s.next_id)
        × (s'.next_id ≡ add64 s.next_id 1)
        × (s'.callbacks ≡ s.callbacks ++ ((s.next_id, iterate after_move n cb) ∷ []))
  unfolding alone step
  add_lem n cb s =
      let e = attempts_lem n s.next_id cb (record s { next_id = add64 s.next_id 1 }) in
      (ap (λ r. r.1) e, ap (λ r. r.0.next_id) e, ap (λ r. r.0.callbacks) e)

  remove_lem :
      (token : ℕ) (s : Signal)
      → 0 < token
      → has token s.callbacks ≡ true
      → alone after_move s (remove_started token) (false ∷ false ∷ [])
        ≡ (store s (without token s.callbacks), removed true)
  unfolding alone step
  remove_lem token s pos there =
      let given : (token == 0) ≡ false = ground arith in
      rw (given, there, same_number s.version) refl

  -- `Remove` of the token that an `Add` has returned finds it and leaves the callbacks as they were
  -- before the `Add`, if the token is new and not 0, whatever callback the `Add` has stored.
  pub remove-add :
      (n cb : ℕ) (s : Signal)
      → has s.next_id s.callbacks ≡ false
      → 0 < s.next_id
      → let (s', _) = alone after_move s (add_started cb) (false ∷ attempts n) in
        let (s'', c) = alone after_move s' (remove_started s.next_id) (false ∷ false ∷ []) in
        (c ≡ removed true) × (s''.callbacks ≡ s.callbacks)
  unfolding alone step
  remove-add n cb s fresh pos =
      let named : Signal = record s { next_id = add64 s.next_id 1 } in
      let es = s.callbacks ++ ((s.next_id, iterate after_move n cb) ∷ []) in
      let e = attempts_lem n s.next_id cb named in
      let gone =
        remove_lem s.next_id (store named es) pos
          (has-snoc s.next_id (iterate after_move n cb) s.callbacks) in
      rw e (
        ap (λ r. r.1) gone,
        ap (λ r. r.0.callbacks) gone
            ∙ without-snoc s.next_id (iterate after_move n cb) s.callbacks fresh,
      )
