-- ===== src/Emitter/Tests.antt =====
-- Two listeners, one of which is removed, and two that are added at once.
use engi_cs.Base.{ℕ, ◌≡◌, refl, true, List, [], ◌∷◌, arith}
use engi_cs.Emitter.{new_emitter, less, LowerBound, take_id, append, destroy_token}
use engi_cs.Emitter.Ordered.{Use, add, remove, Grows, apply_each, apply_each_lem, token_of_earlier}

abbrev first_not_less : LowerBound
first_not_less = record {
  lower_bound = λ ls n. less n ls;
  lower_bound_partitioned = λ ls n h. refl;
}

-- A callback that was moved from is 0.
abbrev emptied : ℕ → ℕ
emptied fun = 0

abbrev uses : List Use
uses = add 0 7 ∷ add 1 8 ∷ remove 0 ∷ add 0 9 ∷ []

apply_each_lem_example :
    ((apply_each first_not_less emptied uses new_emitter).listeners
      ≡ record { id = 1; fun = 0 } ∷ record { id = 2; fun = 9 } ∷ [])
    × Grows (apply_each first_not_less emptied uses new_emitter).listeners
apply_each_lem_example = apply_each_lem first_not_less emptied uses new_emitter tt tt (omega arith)

token_of_earlier_run :
    let (id, e1) = take_id new_emitter in
    let (id', e2) = take_id e1 in
    let e3 = append emptied 0 id' 8 e2 in
    let e4 = append emptied 0 id 7 e3 in
    (destroy_token first_not_less (record { attached = true; id = id }) e4 ≡ e4)
    × (e4.listeners ≡ record { id = id'; fun = 8 } ∷ record { id = id; fun = 7 } ∷ [])
token_of_earlier_run = token_of_earlier first_not_less emptied new_emitter 0 7 0 8 tt (omega arith)
