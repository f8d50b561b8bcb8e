-- ===== src/Memory/Stack/Move.antt =====
-- ecs/core/memory/memory.h: the move constructor of `AlignedStackPmr`.
use mathlib.Core.Path.{subst}
use native.Mathlib.Nat.{add-mod, mod-mod_of_dvd, dvd_of_mod-eq-zero, zero-mod}
use engi_cs.Base.{
  ℕ, ◌+◌, ◌-◌, ◌%◌, ◌≤◌, ◌≡◌, refl, sym, ap, ◌∙◌, some, List, [], ◌∷◌, ◌++◌, map, append-nil,
  append_assoc, length, length-append, arith,
}
use engi_cs.Memory.Stack.{Object, Stack, padding, placed, move_each, move_from}
use engi_cs.Memory.Stack.Layout.{Laid, IsValid, Laid-le, empty-IsValid}
use engi_cs.Memory.Stack.Allocate.{allocate_space-room, needed, placed-IsValid}

-- Every object's alignment divides that of the buffer.
unfoldable pub AllDivide : ℕ → List Object → Type 0
AllDivide a [] = Unit
AllDivide a (o ∷ os) = (a % o.alignment ≡ 0) × AllDivide a os

abbrev pub shifted : ℕ → ℕ → Object → Object
shifted old new o = record o { address = new + (o.address - old) }

multiple : (x a b : ℕ) → x % a ≡ 0 → a % b ≡ 0 → x % b ≡ 0
multiple x a b h k =
    sym (mod-mod_of_dvd b x (dvd_of_mod-eq-zero b k)) ∙ ap (λ y. y % b) h ∙ zero-mod b

-- Buffers with one alignment need the same padding at the same offset.
same_padding :
    (x y a b start : ℕ)
    → x % a ≡ 0
    → y % a ≡ 0
    → a % b ≡ 0
    → padding (x + start) b ≡ padding (y + start) b
same_padding x y a b start h k d =
    ap (λ m. (b - m) % b)
      (add-mod x start b
        ∙ ap (λ m. (m + start % b) % b) (multiple x a b h d ∙ sym (multiple y a b k d))
        ∙ sym (add-mod y start b))

module _ (buffer_size object_count a : ℕ) where
  move_each_lem :
      (os : List Object) (s : Stack) (old end : ℕ)
      → IsValid buffer_size object_count s
      → Laid old s.used os end
      → end ≤ buffer_size
      → length s.objects + length os ≤ object_count
      → old % a ≡ 0
      → s.base % a ≡ 0
      → AllDivide a os
      → let moved = record s { objects = s.objects ++ map (shifted old s.base) os; used = end } in
        (move_each buffer_size object_count s os ≡ some moved)
        × IsValid buffer_size object_count moved
  unfolding move_each Laid AllDivide
  move_each_lem [] s old end v l fits few ho hn d = rw (append-nil, sym l) (refl, v)
  move_each_lem (o ∷ os) s old end v (l₀, l₁, l₂) fits few ho hn (d₀, d₁) =
      let pad = same_padding s.base old a o.alignment s.used hn ho d₀ in
      let o' : Object = record o {
        address = s.base + s.used + padding (s.base + s.used) o.alignment;
      } in
      let s' : Stack =
        placed buffer_size object_count s o'
          (needed buffer_size object_count s o.size o.alignment) in
      let last = Laid-le old os (s.used + padding (old + s.used) o.alignment + o.size) end l₂ in
      let room : s.used + padding (s.base + s.used) o.alignment + o.size ≤ buffer_size =
        omega arith in
      let used : s'.used ≡ s.used + padding (old + s.used) o.alignment + o.size =
        omega (arith, v.small) in
      let (moved, valid) =
        move_each_lem os s' old end
          (placed-IsValid buffer_size object_count s o' v (omega arith) (omega arith) l₀ refl)
          (subst (λ u. Laid old u os end) (sym used) l₂) fits
          (omega (arith, length-append s.objects (o' ∷ []))) ho hn d₁ in
      let there : o' ≡ shifted old s.base o = ap (λ x. record o { address = x }) (omega arith) in
      let list : (s.objects ++ (o' ∷ [])) ++ map (shifted old s.base) os
          ≡ s.objects ++ map (shifted old s.base) (o ∷ os) =
        append_assoc s.objects (o' ∷ []) (map (shifted old s.base) os)
        ∙ ap (λ x. s.objects ++ (x ∷ map (shifted old s.base) os)) there in
      rw
        (
          sym list,
          allocate_space-room buffer_size object_count s o.size o.alignment room v.small,
          move_each,
        )
        (moved, valid)

  -- The move of a valid allocator to another buffer, where both buffers have an alignment that every
  -- object's alignment divides, never reaches its `std::unreachable`. The new allocator is valid and
  -- holds the objects in order, each at its old offset in the new buffer, in as many bytes; the old
  -- one has no object.
  pub move_from_lem :
      (s : Stack) (base : ℕ)
      → IsValid buffer_size object_count s
      → s.base % a ≡ 0
      → base % a ≡ 0
      → AllDivide a s.objects
      → (new : Stack) × (old : Stack) × (move_from buffer_size object_count base s
          ≡ some (new, old))
        × (new.objects ≡ map (shifted s.base base) s.objects)
        × (new.base ≡ base)
        × (new.used ≡ s.used)
        × (old.objects ≡ [])
        × IsValid buffer_size object_count new
  unfolding move_from
  move_from_lem s base v ho hn d =
      let (moved, valid) =
        move_each_lem s.objects (record { base = base; objects = []; used = 0 }) s.base s.used
          (empty-IsValid buffer_size object_count base v.small) v.laid v.fits (omega (arith, v.few))
          ho hn d in
      (
        record { base = base; objects = map (shifted s.base base) s.objects; used = s.used },
        record s { objects = []; used = 0 },
        rw (moved, move_from) refl,
        refl,
        refl,
        refl,
        refl,
        valid,
      )
