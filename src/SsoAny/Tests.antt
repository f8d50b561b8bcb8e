-- ===== src/SsoAny/Tests.antt =====
-- Variables at the addresses 10, 11, …, with a temporary at 1; a move leaves 0, and type 3 cannot be
-- destroyed without an exception.
use engi_cs.Base.{
  ℕ, ◌+◌, ◌≡◌, ◌≢◌, refl, not, ◌==◌, none, some, List, [], ◌∷◌, if◌then◌else◌, arith,
}
use engi_cs.SsoAny.{ValueTypes, Memory, SsoAny, Variables, empty_any, cast, move_from, destruct}
use engi_cs.SsoAny.Sound.{
  Addresses, Assignment, copy, move, value, Represents, assign_each, assigned_each,
  assign_each-Represents, cast_lem,
}
use engi_cs.SsoAny.Lifetimes.{destruct-move_from}

abbrev simple_types : ValueTypes
simple_types = record {
  nothrow_destructible = λ t. not (t == 3);
  copied = λ t v. v;
  moved = λ t v. v;
  left = λ t v. 0;
}

injective : (i j : ℕ) → i + 10 ≡ j + 10 → i ≡ j
injective i j e = omega arith

not_null : (i : ℕ) → i + 10 ≢ 0
not_null i e = omega arith

apart : (i : ℕ) → i + 10 ≢ 1
apart i e = omega arith

one_not_null : ◌≢◌ {A = ℕ} 1 0
one_not_null e = omega arith

abbrev ten_on : Addresses
ten_on = record {
  address = λ i. i + 10;
  temporary = 1;
  address_injective = injective;
  address_not_null = not_null;
  temporary_apart = apart;
  temporary_not_null = one_not_null;
}

abbrev fresh : Variables
fresh = record {
  var = λ i. empty_any (i + 10);
  memory = record { object = λ x. none; constructed = 0; destructed = 0 };
}

abbrev steps : List Assignment
steps = value 0 2 7 ∷ copy 1 0 ∷ move 2 0 ∷ copy 2 2 ∷ []

assign_each-Represents_example :
    (s' : Variables) × (assign_each simple_types ten_on steps fresh ≡ some s')
    × Represents simple_types ten_on s' (assigned_each simple_types ten_on steps (λ i. none))
assign_each-Represents_example =
    assign_each-Represents simple_types ten_on steps fresh (λ i. none) (λ i. (refl, refl))

-- 0 holds nothing after the move, and 1 and 2 hold the value.
kept : assigned_each simple_types ten_on steps (λ i. none) 2 ≡ some (record { type = 2; value = 7 })
kept = refl

abbrev held : SsoAny
held = record {
  storage = 10;
  ptr = 10;
  destructor = some 2;
  copy_constructor = some 2;
  move_constructor = some 2;
  type = some 2;
}

abbrev one_object : Memory
one_object = record {
  object = λ x. if x == 10 then some (record { type = 2; value = 7 }) else none;
  constructed = 1;
  destructed = 0;
}

cast_lem_example : cast 2 held ≡ some 10
cast_lem_example =
    cast_lem simple_types ten_on 2 0 held one_object (some (record { type = 2; value = 7 }))
      (refl, refl, refl, refl, refl, refl, refl)

destruct-move_from_example :
    (a' b : SsoAny) × (m' : Memory) × (move_from simple_types 11 held one_object ≡ some (a', b, m'))
    × (let gone = destruct simple_types b (destruct simple_types a' m') in
        (gone.object 11 ≡ none)
        × (gone.object 10 ≡ some (record { type = 2; value = 0 }))
        × (gone.constructed ≡ 2)
        × (gone.destructed ≡ 1))
destruct-move_from_example =
    destruct-move_from simple_types ten_on 1 0 held one_object (record { type = 2; value = 7 })
      (refl, refl, refl, refl, refl, refl, refl) refl refl
