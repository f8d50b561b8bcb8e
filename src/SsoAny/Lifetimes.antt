-- ===== src/SsoAny/Lifetimes.antt =====
-- ecs/core/utils/sso_any.h: which objects are destroyed.
use engi_cs.Base.{ℕ, ◌+◌, ◌≡◌, refl, sym, ap, ◌∙◌, true, false, ◌==◌, none, some, update, arith}
use engi_cs.SsoAny.{
  Object, ValueTypes, Memory, SsoAny, construct, destroy, copy_construct, move_construct, copy_from,
  move_from, destruct,
}
use engi_cs.SsoAny.Sound.{Addresses, Holds, address_differs, no_offset}

module _ (types : ValueTypes) (addresses : Addresses) where
  open types use {nothrow_destructible, copied, moved, left}
  open addresses use {address, address_not_null}

  destruct_lem :
      (a : SsoAny) (m : Memory) (type x : ℕ)
      → a.destructor ≡ some type
      → a.ptr ≡ x
      → (x == 0) ≡ false
      → nothrow_destructible type ≡ true
      → destruct types a m
        ≡ record m { object = update m.object x none; destructed = m.destructed + 1 }
  unfolding destruct destroy
  destruct_lem a m type x d p real simple = ground arith

  destruct_empty : (a : SsoAny) (m : Memory) → a.ptr ≡ 0 → destruct types a m ≡ m
  unfolding destruct
  destruct_empty a m e = ground arith

  address_real : (i : ℕ) → (address i == 0) ≡ false
  address_real i = ground (arith, address_not_null i)

  -- A variable is copied into another buffer, and then both are destroyed: no object is left in
  -- either buffer, and one object was constructed and two destroyed.
  pub destruct-copy_from :
      (i j : ℕ) (a : SsoAny) (m : Memory) (o : Object)
      → Holds types addresses j a m (some o)
      → nothrow_destructible o.type ≡ true
      → (i == j) ≡ false
      → (a' : SsoAny) × (m' : Memory) × (copy_from types (address i) a m ≡ some (a', m'))
        × (let gone = destruct types a (destruct types a' m') in
            (gone.object (address i) ≡ none)
            × (gone.object (address j) ≡ none)
            × (gone.constructed ≡ m.constructed + 1)
            × (gone.destructed ≡ m.destructed + 2))
  unfolding copy_from copy_construct
  destruct-copy_from i j a m o (s, p, at, d, c, v, t) simple apart =
      let here : (a.ptr == 0) ≡ false = ground (arith, address_not_null j) in
      let at_ptr : m.object a.ptr ≡ some o = ap m.object p ∙ at in
      let a' : SsoAny = record a { storage = address i; ptr = address i } in
      let m' : Memory = construct o.type (copied o.type o.value) (address i) m in
      let first = destruct_lem a' m' o.type (address i) d refl (address_real i) simple in
      let second =
        destruct_lem a (destruct types a' m') o.type (address j) d p (address_real j) simple in
      (
        a',
        m',
        ground (
          arith,
          here,
          c,
          at_ptr,
          no_offset types addresses (address i) a.ptr a.storage (p ∙ sym s),
        ),
        rw (second, first) (ground arith, ground arith, refl, omega arith),
      )

  -- A variable is moved into another buffer, and then both are destroyed: the object that was moved
  -- from stays in the old buffer and is never destroyed. One object was constructed and one
  -- destroyed.
  pub destruct-move_from :
      (i j : ℕ) (a : SsoAny) (m : Memory) (o : Object)
      → Holds types addresses j a m (some o)
      → nothrow_destructible o.type ≡ true
      → (i == j) ≡ false
      → (a' b : SsoAny) × (m' : Memory) × (move_from types (address i) a m ≡ some (a', b, m'))
        × (let gone = destruct types b (destruct types a' m') in
            (gone.object (address i) ≡ none)
            × (gone.object (address j) ≡ some (record o { value = left o.type o.value }))
            × (gone.constructed ≡ m.constructed + 1)
            × (gone.destructed ≡ m.destructed + 1))
  unfolding move_from move_construct
  destruct-move_from i j a m o (s, p, at, d, c, v, t) simple apart =
      let here : (a.ptr == 0) ≡ false = ground (arith, address_not_null j) in
      let at_ptr : m.object a.ptr ≡ some o = ap m.object p ∙ at in
      let a' : SsoAny = record a { storage = address i; ptr = address i } in
      let b : SsoAny = record a { ptr = 0 } in
      let m' : Memory = construct o.type (moved o.type o.value) (address i) (record m {
        object = update m.object a.ptr (some (record o { value = left o.type o.value }));
      }) in
      let first = destruct_lem a' m' o.type (address i) d refl (address_real i) simple in
      (
        a',
        b,
        m',
        ground (
          arith,
          here,
          v,
          at_ptr,
          no_offset types addresses (address i) a.ptr a.storage (p ∙ sym s),
        ),
        rw (destruct_empty b (destruct types a' m') refl, first)
            (
              ground arith,
              ground (arith, address_differs types addresses j i apart, p),
              refl,
              refl,
            ),
      )
