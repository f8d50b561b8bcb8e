-- ===== src/Emitter/Ordered.antt =====
-- ecs/core/utils/emitter.h: the ids in the list of listeners, by which `RemoveListener` searches.
use mathlib.Core.Path.{subst}
use engi_cs.Base.{
  ℕ, suc, ◌+◌, ◌^◌, ◌≡◌, ◌<◌, ◌≤◌, refl, sym, ap, ◌∙◌, true, false, some, List, [], ◌∷◌, ◌++◌,
  append_assoc, ◌==◌, ltb, if◌then◌else◌, Bool-cases, inl, inr, add64, get_elem?, length, arith,
}
use engi_cs.Emitter.{
  Listener, Emitter, less, NotLess, IsPartitioned, LowerBound, take_id, iterate, append,
  add_listener, remove_at, remove_listener, destroy_token,
}

-- The list without the listeners of an id.
abbrev pub without : ℕ → List Listener → List Listener
without n [] = []
without n (l ∷ ls) = if l.id == n then without n ls else l ∷ without n ls

abbrev pub Above : ℕ → List Listener → Type 0
Above n [] = Unit {0}
Above n (l ∷ ls) = (n < l.id) × Above n ls

abbrev pub Below : ℕ → List Listener → Type 0
Below n [] = Unit {0}
Below n (l ∷ ls) = (l.id < n) × Below n ls

-- The ids grow along the list.
abbrev pub Grows : List Listener → Type 0
Grows [] = Unit {0}
Grows (l ∷ ls) = Above l.id ls × Grows ls

NotLess-Above : (n m : ℕ) (ls : List Listener) → n ≤ m → Above m ls → NotLess n ls
NotLess-Above n m [] le h = tt
NotLess-Above n m (l ∷ ls) le h = (omega arith, NotLess-Above n m ls le h.1)

Grows-IsPartitioned : (n : ℕ) (ls : List Listener) → Grows ls → IsPartitioned n ls
Grows-IsPartitioned n [] h = tt
Grows-IsPartitioned n (l ∷ ls) h =
    (λ lt. Grows-IsPartitioned n ls h.1, λ le. NotLess-Above n l.id ls le h.0)

without-Above : (n m : ℕ) (ls : List Listener) → n ≤ m → Above m ls → without n ls ≡ ls
without-Above n m [] le h = refl
without-Above n m (l ∷ ls) le h =
    let other : (l.id == n) ≡ false = ground arith in
    rw other (ap (λ xs. l ∷ xs) (without-Above n m ls le h.1))

remove_at_later :
    (l : Listener) (ls : List Listener) (id i : ℕ)
    → remove_at (l ∷ ls) id (suc i) ≡ l ∷ remove_at ls id i
remove_at_later l ls id i = ground arith

remove_at-less :
    (id : ℕ) (ls : List Listener) → Grows ls → remove_at ls id (less id ls) ≡ without id ls
remove_at-less id [] h = refl
remove_at-less id (l ∷ ls) h = elim (Bool-cases (ltb l.id id)) [
  | inl lt ↦
      let other : (l.id == id) ≡ false = ground arith in
      rw (lt, other)
        (remove_at_later l ls id (less id ls) ∙ ap (λ xs. l ∷ xs) (remove_at-less id ls h.1))
  | inr ge ↦ elim (Bool-cases (l.id == id)) [
    | inl e ↦ rw (ge, e) (sym (without-Above id l.id ls (ground arith) h.0))
    | inr e ↦ rw (ge, e) (ap (λ xs. l ∷ xs) (sym (without-Above id l.id ls (ground arith) h.0)))
  ]
]

Grows-append :
    (ls : List Listener) (l : Listener) → Grows ls → Below l.id ls → Grows (ls ++ (l ∷ []))
Grows-append [] l h b = (tt, tt)
Grows-append (x ∷ ls) l h b = (above x.id ls h.0 b.0, Grows-append ls l h.1 b.1)
  where
    above : (n : ℕ) (ls : List Listener) → Above n ls → n < l.id → Above n (ls ++ (l ∷ []))
    above n [] a lt = (lt, tt)
    above n (y ∷ ls) a lt = (a.0, above n ls a.1 lt)

Below-append :
    (n m : ℕ) (ls : List Listener) (l : Listener)
    → n ≤ m
    → l.id < m
    → Below n ls
    → Below m (ls ++ (l ∷ []))
Below-append n m [] l le lt b = (lt, tt)
Below-append n m (x ∷ ls) l le lt b = (omega arith, Below-append n m ls l le lt b.1)

Above-without : (n m : ℕ) (ls : List Listener) → Above m ls → Above m (without n ls)
Above-without n m [] h = tt
Above-without n m (l ∷ ls) h = elim (Bool-cases (l.id == n)) [
  | inl e ↦ rw e (Above-without n m ls h.1)
  | inr e ↦ rw e (h.0, Above-without n m ls h.1)
]

Grows-without : (n : ℕ) (ls : List Listener) → Grows ls → Grows (without n ls)
Grows-without n [] h = tt
Grows-without n (l ∷ ls) h = elim (Bool-cases (l.id == n)) [
  | inl e ↦ rw e (Grows-without n ls h.1)
  | inr e ↦ rw e (Above-without n l.id ls h.0, Grows-without n ls h.1)
]

Below-without : (n m : ℕ) (ls : List Listener) → Below m ls → Below m (without n ls)
Below-without n m [] h = tt
Below-without n m (l ∷ ls) h = elim (Bool-cases (l.id == n)) [
  | inl e ↦ rw e (Below-without n m ls h.1)
  | inr e ↦ rw e (h.0, Below-without n m ls h.1)
]

-- Whole calls, one after another; `add n fun` has `n` compare-exchanges that fail.
pub data Use : Type 0 where
  add : (n fun : ℕ) → Use
  remove : (id : ℕ) → Use

-- The listeners that calls leave, the next id being `next`: an addition stands last with the next
-- id, and a removal leaves the others in their order.
abbrev pub left_by : (after_move : ℕ → ℕ) → List Use → (next : ℕ) → List Listener → List Listener
left_by f [] next ls = ls
left_by f (add n fun ∷ us) next ls =
    left_by f us (next + 1) (ls ++ (record { id = next; fun = iterate f n fun } ∷ []))
left_by f (remove id ∷ us) next ls = left_by f us next (without id ls)

module _ (std : LowerBound) (after_move : ℕ → ℕ) where
  open std use {lower_bound, lower_bound_partitioned}

  unfoldable pub apply : Use → Emitter → Emitter
  apply (add n fun) e = (add_listener after_move n fun e).1
  apply (remove id) e = remove_listener std id e

  unfoldable pub apply_each : List Use → Emitter → Emitter
  apply_each [] e = e
  apply_each (u ∷ us) e = apply_each us (apply u e)

  remove_listener_lem :
      (id : ℕ) (e : Emitter)
      → Grows e.listeners
      → remove_listener std id e ≡ record e { listeners = without id e.listeners }
  unfolding remove_listener
  remove_listener_lem id e h =
      let found = lower_bound_partitioned e.listeners id (Grows-IsPartitioned id e.listeners h) in
      ap (λ ls. record e { listeners = ls })
        (ap (λ i. remove_at e.listeners id i) found ∙ remove_at-less id e.listeners h)

  -- Calls one after another, fewer than 2 ^ 64 in all, leave the listeners that were added and not
  -- removed, in the order of their addition, with ids that grow along the list, whatever
  -- `std::lower_bound` gives for a range that is not partitioned: each removal finds its listener.
  pub apply_each_lem :
      (us : List Use) (e : Emitter)
      → Grows e.listeners
      → Below e.next_id e.listeners
      → e.next_id + length us < 2 ^ 64
      → ((apply_each us e).listeners ≡ left_by after_move us e.next_id e.listeners)
        × Grows (apply_each us e).listeners
  unfolding apply_each apply add_listener take_id append
  apply_each_lem [] e grows below room = (refl, grows)
  apply_each_lem (add n fun ∷ us) e grows below room =
      let new : Listener = record { id = e.next_id; fun = iterate after_move n fun } in
      let next : add64 e.next_id 1 ≡ e.next_id + 1 = omega arith in
      let after : Emitter = record {
        listeners = e.listeners ++ (new ∷ []);
        next_id = add64 e.next_id 1;
      } in
      let (same, grows') =
        apply_each_lem us after (Grows-append e.listeners new grows below)
          (rw next (
            Below-append e.next_id (e.next_id + 1) e.listeners new (omega arith) (omega arith)
              below))
          (rw next (omega arith)) in
      (same ∙ ap (λ k. left_by after_move us k (e.listeners ++ (new ∷ []))) next, grows')
  apply_each_lem (remove id ∷ us) e grows below room =
      let removed = remove_listener_lem id e grows in
      let after : Emitter = record e { listeners = without id e.listeners } in
      let (same, grows') =
        apply_each_lem us after (Grows-without id e.listeners grows)
          (Below-without id e.next_id e.listeners below) (omega arith) in
      subst
        (λ (e' : Emitter).
          ((apply_each us e').listeners ≡ left_by after_move us e.next_id (without id e.listeners))
          × Grows (apply_each us e').listeners)
        (sym removed) (same, grows')

  less_append :
      (n : ℕ) (ls ms : List Listener) → Below n ls → less n (ls ++ ms) ≡ length ls + less n ms
  less_append n [] ms b = omega arith
  less_append n (l ∷ ls) ms b = ground (arith, less_append n ls ms b.1)

  IsPartitioned-append :
      (n : ℕ) (ls ms : List Listener) → Below n ls → NotLess n ms → IsPartitioned n (ls ++ ms)
  IsPartitioned-append n [] [] b h = tt
  IsPartitioned-append n [] (m ∷ ms) b h = (λ lt. absurd (omega arith), λ le. h.1)
  IsPartitioned-append n (l ∷ ls) ms b h =
      (λ lt. IsPartitioned-append n ls ms b.1 h, λ le. absurd (omega arith))

  at_length :
      (ls ms : List Listener) (m : Listener) → get_elem? (ls ++ (m ∷ ms)) (length ls) ≡ some m
  at_length [] ms m = refl
  at_length (l ∷ ls) ms m = at_length ls ms m

  -- A listener that stands directly after one with a greater id is not found.
  missed :
      (e : Emitter) (ls : List Listener) (first second : Listener)
      → e.listeners ≡ ls ++ (first ∷ second ∷ [])
      → Below second.id ls
      → second.id < first.id
      → remove_listener std second.id e ≡ e
  unfolding remove_listener
  missed e ls first second stands below greater =
      let n = second.id in
      let rest = first ∷ second ∷ [] in
      let parts : IsPartitioned n e.listeners =
        subst (λ xs. IsPartitioned n xs) (sym stands)
          (IsPartitioned-append n ls rest below (omega arith, (omega arith, tt))) in
      let none_less : less n rest ≡ 0 = ground arith in
      let index : lower_bound e.listeners n ≡ length ls =
        lower_bound_partitioned e.listeners n parts
        ∙ ap (λ xs. less n xs) stands
        ∙ less_append n ls rest below
        ∙ omega (arith, none_less) in
      let there : get_elem? e.listeners (lower_bound e.listeners n) ≡ some first =
        ap (λ i. get_elem? e.listeners i) index
        ∙ ap (λ xs. get_elem? xs (length ls)) stands
        ∙ at_length ls (second ∷ []) first in
      let other : (first.id == n) ≡ false = ground arith in ground (arith, there, other)

  -- Two threads add a listener at once: the first takes its id before the second and stores its list
  -- after it. Then the token of the first removes nothing, and its listener stays, last of all.
  pub token_of_earlier :
      (e : Emitter) (n fun n' fun' : ℕ)
      → Below e.next_id e.listeners
      → e.next_id + 1 < 2 ^ 64
      → let (id, e1) = take_id e in
        let (id', e2) = take_id e1 in
        let e3 = append after_move n' id' fun' e2 in
        let e4 = append after_move n id fun e3 in
        (destroy_token std (record { attached = true; id = id }) e4 ≡ e4)
        × (e4.listeners
            ≡ e.listeners
              ++ (record { id = id'; fun = iterate after_move n' fun' }
                  ∷ record { id = id; fun = iterate after_move n fun }
                  ∷ []))
  unfolding destroy_token take_id append
  token_of_earlier e n fun n' fun' below room =
      let next : add64 e.next_id 1 ≡ e.next_id + 1 = omega arith in
      let first : Listener = record { id = add64 e.next_id 1; fun = iterate after_move n' fun' } in
      let second : Listener = record { id = e.next_id; fun = iterate after_move n fun } in
      let together = append_assoc e.listeners (first ∷ []) (second ∷ []) in
      (
        missed
            (record {
              listeners = (e.listeners ++ (first ∷ [])) ++ (second ∷ []);
              next_id = add64 (add64 e.next_id 1) 1;
            })
            e.listeners first second together below (omega (arith, next)),
        together,
      )
