-- ===== src/SsoAny/Sound.antt =====
-- ecs/core/utils/sso_any.h: what a variable holds through assignments, whatever the addresses are.
use mathlib.Core.Path.{subst}
use engi_cs.Base.{
  ℕ, ◌+◌, ◌-◌, ◌≡◌, ◌≢◌, refl, sym, ap, ◌∙◌, false, inl, inr, Option, none, some, List, [], ◌∷◌,
  ◌==◌, if◌then◌else◌, update, Bool-cases, ==_iff, arith,
}
use engi_cs.SsoAny.{
  Object, ValueTypes, Memory, SsoAny, Variables, empty_any, construct, cast, destroy,
  copy_construct, move_construct, copy_from, move_from, destruct, from_value, copy_assign,
  move_assign, value_assign,
}

-- The addresses of the variables' storages, and of that of a temporary.
pub record Addresses : Type 0 where
  pub address : ℕ → ℕ
  pub temporary : ℕ
  pub address_injective : (i j : ℕ) → address i ≡ address j → i ≡ j
  pub address_not_null : (i : ℕ) → address i ≢ 0
  pub temporary_apart : (i : ℕ) → address i ≢ temporary
  pub temporary_not_null : temporary ≢ 0

pub data Assignment : Type 0 where
  copy : (i j : ℕ) → Assignment
  move : (i j : ℕ) → Assignment
  value : (i type value : ℕ) → Assignment

module _ (types : ValueTypes) (addresses : Addresses) where
  open types use {copied, moved, left}
  open addresses use {
    address, temporary, address_injective, address_not_null, temporary_apart, temporary_not_null,
  }

  unfoldable pub assign : Assignment → Variables → Option Variables
  assign (copy i j) s = copy_assign types i j s
  assign (move i j) s = move_assign types i j s
  assign (value i type v) s = value_assign types i type v temporary s

  -- What variables hold: an object, or nothing.
  abbrev pub Contents : Type 0
  Contents = ℕ → Option Object

  abbrev pub copied_object : Option Object → Option Object
  copied_object none = none
  copied_object (some o) = some (record o { value = copied o.type o.value })

  abbrev pub moved_object : Option Object → Option Object
  moved_object none = none
  moved_object (some o) = some (record o { value = moved o.type o.value })

  abbrev pub assigned : Assignment → Contents → Contents
  assigned (copy i j) f = if i == j then f else update f i (copied_object (f j))
  assigned (move i j) f = if i == j then f else update (update f j none) i (moved_object (f j))
  assigned (value i t v) f = update f i (some (record { type = t; value = moved t v }))

  -- A variable in the memory, and what it holds.
  abbrev pub Holds : ℕ → SsoAny → Memory → Option Object → Type 0
  Holds i a m none = (a.storage ≡ address i) × (a.ptr ≡ 0)
  Holds i a m (some o) =
      (a.storage ≡ address i)
      × (a.ptr ≡ address i)
      × (m.object (address i) ≡ some o)
      × (a.destructor ≡ some o.type)
      × (a.copy_constructor ≡ some o.type)
      × (a.move_constructor ≡ some o.type)
      × (a.type ≡ some o.type)

  abbrev pub Represents : Variables → Contents → Type 0
  Represents s f = (i : ℕ) → Holds i (s.var i) s.memory (f i)

  pub address_differs : (i k : ℕ) → (k == i) ≡ false → (address k == address i) ≡ false
  address_differs i k h = grind (arith, address_injective k i)

  -- A variable still holds what it held if the memory at its address is the same.
  Holds-keeps :
      (i : ℕ) (a : SsoAny) (m m' : Memory) (o : Option Object)
      → m'.object (address i) ≡ m.object (address i)
      → Holds i a m o
      → Holds i a m' o
  Holds-keeps i a m m' none e h = h
  Holds-keeps i a m m' (some o) e (s, p, at, d, c, v, t) = (s, p, e ∙ at, d, c, v, t)

  destruct_spares :
      (i x : ℕ) (a : SsoAny) (m : Memory) (o : Option Object)
      → (x == address i) ≡ false
      → Holds i a m o
      → (destruct types a m).object x ≡ m.object x
  unfolding destruct destroy
  destruct_spares i x a m none e h = ground arith
  destruct_spares i x a m (some o) e h = ground arith

  destruct_keeps :
      (i k : ℕ) (a : SsoAny) (m : Memory) (o : Option Object)
      → (k == i) ≡ false
      → Holds i a m o
      → (destruct types a m).object (address k) ≡ m.object (address k)
  destruct_keeps i k a m o e h = destruct_spares i (address k) a m o (address_differs i k e) h

  -- What a copy constructor or a move constructor makes in the storage of the variable `i`, and
  -- where the memory stays the same.
  Made : (i : ℕ) → SsoAny → Memory → Memory → Option Object → Type 0
  Made i a m m' o =
      Holds i a m' o × ((k : ℕ) → (k == i) ≡ false → m'.object (address k) ≡ m.object (address k))

  pub no_offset : (x y z : ℕ) → y ≡ z → x + (y - z) ≡ x
  no_offset x y z e = omega arith

  copy_from_lem :
      (i j : ℕ) (a : SsoAny) (m : Memory) (o : Option Object)
      → Holds j a m o
      → (r : SsoAny × Memory) × (copy_from types (address i) a m ≡ some r)
        × Made i r.0 m r.1 (copied_object o)
  unfolding copy_from copy_construct Made
  copy_from_lem i j a m none (s, p) =
      ((empty_any (address i), m), rw (p, copy_from) refl, ((refl, refl), λ k e. refl))
  copy_from_lem i j a m (some o) (s, p, at, d, c, v, t) =
      let here : (a.ptr == 0) ≡ false = ground (arith, address_not_null j) in
      let at_ptr : m.object a.ptr ≡ some o = ap m.object p ∙ at in
      (
        (
          record a { storage = address i; ptr = address i },
          construct o.type (copied o.type o.value) (address i) m,
        ),
        ground (arith, here, c, at_ptr, no_offset (address i) a.ptr a.storage (p ∙ sym s)),
        ((refl, refl, ground arith, d, c, v, t), λ k e. ground (arith, address_differs i k e)),
      )

  -- The variable that is moved from holds nothing; its object stays in the memory.
  Moved : (i j : ℕ) → SsoAny × SsoAny × Memory → Memory → Option Object → Type 0
  Moved i j (a', b', m') m o =
      Holds i a' m' o
      × Holds j b' m' none
      × ((k : ℕ)
          → (k == i) ≡ false
          → (k == j) ≡ false
          → m'.object (address k) ≡ m.object (address k))

  move_from_lem :
      (i j : ℕ) (a : SsoAny) (m : Memory) (o : Option Object)
      → Holds j a m o
      → (r : SsoAny × SsoAny × Memory) × (move_from types (address i) a m ≡ some r)
        × Moved i j r m (moved_object o)
  unfolding move_from move_construct Moved
  move_from_lem i j a m none (s, p) = (
    (empty_any (address i), a, m),
    rw (p, move_from) refl,
    ((refl, refl), (s, p), λ k e e'. refl),
  )
  move_from_lem i j a m (some o) (s, p, at, d, c, v, t) =
      let here : (a.ptr == 0) ≡ false = ground (arith, address_not_null j) in
      let at_ptr : m.object a.ptr ≡ some o = ap m.object p ∙ at in
      (
        (
          record a { storage = address i; ptr = address i },
          record a { ptr = 0 },
          construct o.type (moved o.type o.value) (address i) (record m {
            object = update m.object a.ptr (some (record o { value = left o.type o.value }));
          }),
        ),
        ground (arith, here, v, at_ptr, no_offset (address i) a.ptr a.storage (p ∙ sym s)),
        (
          (refl, refl, ground arith, d, c, v, t),
          (s, refl),
          λ k e e'. ground (arith, address_differs i k e, address_differs j k e', p),
        ),
      )

  other_differs : (i j : ℕ) → (i == j) ≡ false → (j == i) ≡ false
  other_differs i j e = ground arith

  Holds-storage :
      (i : ℕ) (a : SsoAny) (m : Memory) (o : Option Object) → Holds i a m o → a.storage ≡ address i
  Holds-storage i a m none h = h.0
  Holds-storage i a m (some o) h = h.0

  -- One variable is replaced.
  update-Holds :
      (i k : ℕ) (var : ℕ → SsoAny) (a : SsoAny) (m : Memory) (f : Contents) (o : Option Object)
      → Holds i a m o
      → ((k == i) ≡ false → Holds k (var k) m (f k))
      → Holds k (update var i a k) m (update f i o k)
  update-Holds i k var a m f o new old = elim (Bool-cases (k == i)) [
    | inl p ↦ rw p (subst (λ v. Holds v a m o) (sym ((==_iff k i).0 p)) new)
    | inr p ↦ rw p (old p)
  ]

  module _ (i : ℕ) (s : Variables) (f : Contents) (h : Represents s f) where
    emptied : Memory
    emptied = destruct types (s.var i) s.memory

    still : (k : ℕ) → (k == i) ≡ false → Holds k (s.var k) emptied (f k)
    unfolding emptied
    still k d =
        Holds-keeps k (s.var k) s.memory (destruct types (s.var i) s.memory) (f k)
          (destruct_keeps i k (s.var i) s.memory (f i) d (h i)) (h k)

    copy_assign_lem :
        (j : ℕ)
        → (s' : Variables) × (copy_assign types i j s ≡ some s')
          × Represents s' (assigned (copy i j) f)
    unfolding copy_assign emptied Made
    copy_assign_lem j = elim (Bool-cases (i == j)) [
      | inl e ↦ (s, rw e refl, λ k. rw e (h k))
      | inr e ↦
          let ((a, m), eq, (new, same)) =
            copy_from_lem i j (s.var j) emptied (f j) (still j (other_differs i j e)) in
          (
            record { var = update s.var i a; memory = m },
            ground (arith, e, eq, Holds-storage i (s.var i) s.memory (f i) (h i)),
            λ k. rw e (
                update-Holds i k s.var a m f (copied_object (f j)) new
                  (λ p. Holds-keeps k (s.var k) emptied m (f k) (same k p) (still k p))),
          )
    ]

    move_assign_lem :
        (j : ℕ)
        → (s' : Variables) × (move_assign types i j s ≡ some s')
          × Represents s' (assigned (move i j) f)
    unfolding move_assign emptied Moved
    move_assign_lem j = elim (Bool-cases (i == j)) [
      | inl e ↦ (s, rw e refl, λ k. rw e (h k))
      | inr e ↦
          let ((a, b, m), eq, (new, old, same)) =
            move_from_lem i j (s.var j) emptied (f j) (still j (other_differs i j e)) in
          (
            record { var = update (update s.var j b) i a; memory = m },
            ground (arith, e, eq, Holds-storage i (s.var i) s.memory (f i) (h i)),
            λ k. rw e (
                update-Holds i k (update s.var j b) a m (update f j none) (moved_object (f j)) new
                  (λ p.
                    update-Holds j k s.var b m f none old
                      (λ q. Holds-keeps k (s.var k) emptied m (f k) (same k p q) (still k p)))),
          )
    ]

    -- The memory in which the temporary of a value stands, with the old value destroyed.
    with_temporary : (type v : ℕ) → Memory
    with_temporary type v = destruct types (s.var i) (construct type v temporary s.memory)

    temporary_differs : (k : ℕ) → (address k == temporary) ≡ false
    temporary_differs k = ground (arith, temporary_apart k)

    beside : (type v k : ℕ) → Holds k (s.var k) (construct type v temporary s.memory) (f k)
    beside type v k =
        Holds-keeps k (s.var k) s.memory (construct type v temporary s.memory) (f k)
          (ground (arith, temporary_differs k)) (h k)

    temporary_stands :
        (type v : ℕ)
        → (with_temporary type v).object temporary ≡ some (record { type = type; value = v })
    unfolding with_temporary
    temporary_stands type v =
        destruct_spares i temporary (s.var i) (construct type v temporary s.memory) (f i)
          (ground (arith, temporary_differs i)) (beside type v i)
        ∙ ground arith

    standing : ℕ → ℕ → SsoAny
    standing type storage = record {
      storage = storage;
      ptr = storage;
      destructor = some type;
      copy_constructor = some type;
      move_constructor = some type;
      type = some type;
    }

    -- The memory after the move out of the temporary.
    filled : (type v : ℕ) → Memory
    filled type v = construct type (moved type v) (address i) (record (with_temporary type v) {
      object =
          update (Memory.object (with_temporary type v)) temporary
            (some (record { type = type; value = left type v }));
    })

    temporary_moved :
        (type v : ℕ)
        → move_from types (s.var i).storage (standing type temporary) (with_temporary type v)
          ≡ some (
            standing type (address i),
            record (standing type temporary) { ptr = 0 },
            filled type v,
          )
    unfolding move_from move_construct standing filled
    temporary_moved type v =
        let there : (temporary == 0) ≡ false = ground (arith, temporary_not_null) in
        ground (
          arith,
          there,
          temporary_stands type v,
          Holds-storage i (s.var i) s.memory (f i) (h i),
          no_offset (address i) temporary temporary refl,
        )

    destruct_null :
        (type : ℕ) (m : Memory)
        → destruct types (record (standing type temporary) { ptr = 0 }) m ≡ m
    unfolding destruct standing
    destruct_null type m = refl

    value_assign_lem :
        (type v : ℕ)
        → (s' : Variables) × (value_assign types i type v temporary s ≡ some s')
          × Represents s' (assigned (value i type v) f)
    unfolding value_assign from_value standing with_temporary filled
    value_assign_lem type v = (
      record { var = update s.var i (standing type (address i)); memory = filled type v },
      ground (arith, temporary_moved type v, destruct_null type (filled type v)),
      λ k.
          update-Holds i k s.var (standing type (address i)) (filled type v) f
            (some (record { type = type; value = moved type v }))
            (refl, refl, ground arith, refl, refl, refl, refl)
            (λ p.
              Holds-keeps k (s.var k) (construct type v temporary s.memory) (filled type v) (f k)
                (ground (
                  arith,
                  address_differs i k p,
                  temporary_differs k,
                  destruct_keeps i k (s.var i) (construct type v temporary s.memory) (f i) p
                      (beside type v i),
                ))
                (beside type v k)),
    )

  assign_lem :
      (a : Assignment) (s : Variables) (f : Contents)
      → Represents s f
      → (s' : Variables) × (assign a s ≡ some s') × Represents s' (assigned a f)
  unfolding assign
  assign_lem (copy i j) s f h = copy_assign_lem i s f h j
  assign_lem (move i j) s f h = move_assign_lem i s f h j
  assign_lem (value i type v) s f h = value_assign_lem i s f h type v

  unfoldable pub assign_each : List Assignment → Variables → Option Variables
  assign_each [] s = some s
  assign_each (a ∷ as') s = elim (assign a s) [ none ↦ none | some s' ↦ assign_each as' s' ]

  abbrev pub assigned_each : List Assignment → Contents → Contents
  assigned_each [] f = f
  assigned_each (a ∷ as') f = assigned_each as' (assigned a f)

  -- Any assignments of copies, moves and new values between variables at different addresses have no
  -- fault, and what the variables hold is what the assignments say: a copy leaves its source as it
  -- was and a move leaves it with nothing, an assignment of a variable to itself changes nothing, a
  -- variable with nothing gives nothing, and the functions that are stored are those of the type.
  pub assign_each-Represents :
      (as' : List Assignment) (s : Variables) (f : Contents)
      → Represents s f
      → (s' : Variables) × (assign_each as' s ≡ some s') × Represents s' (assigned_each as' f)
  unfolding assign_each
  assign_each-Represents [] s f h = (s, refl, h)
  assign_each-Represents (a ∷ as') s f h =
      let (s1, eq1, h1) = assign_lem a s f h in
      let (s2, eq2, h2) = assign_each-Represents as' s1 (assigned a f) h1 in
      (s2, rw (eq1, assign_each) eq2, h2)

  -- The address of a variable's object, if it has one of the type.
  abbrev pub object_of : (t i : ℕ) → Option Object → Option ℕ
  object_of t i none = none
  object_of t i (some x) = if x.type == t then some (address i) else none

  -- `cast` to a type gives the address of the variable's buffer if the variable holds an object of
  -- this type; it throws if the object is of another type, and if the variable holds nothing, also
  -- where it keeps the type of an object that was moved out of it.
  pub cast_lem :
      (t i : ℕ) (a : SsoAny) (m : Memory) (o : Option Object)
      → Holds i a m o
      → cast t a ≡ object_of t i o
  unfolding cast
  cast_lem t i a m none (s, p) = ground arith
  cast_lem t i a m (some o) (s, p, at, d, c, v, ty) = ground (arith, address_not_null i)
