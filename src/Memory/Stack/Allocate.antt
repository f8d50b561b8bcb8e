-- ===== src/Memory/Stack/Allocate.antt =====
-- ecs/core/memory/memory.h: `allocate_space` and `allocate`.
use mathlib.Core.List.{reverse-cons}
use engi_cs.Base.{
  ℕ, ◌+◌, ◌%◌, ◌^◌, ◌≤◌, ◌<◌, ◌≡◌, refl, sym, ap, ◌∙◌, ◌⊎◌, inl, inr, none, some, List, [], ◌∷◌,
  ◌++◌, length, get_elem?, length-append, reverse, dec_lt, add64, arith,
}
use engi_cs.ErrorCode.{buffer_overflow}
use engi_cs.Memory.Stack.{
  Object, Stack, space, unexpected, padding, allocate_space, allocate, placed, destroyed, reset,
}
use engi_cs.Memory.Stack.Layout.{
  IsValid, padding_aligned, empty-IsValid, Laid-snoc, Laid-first, Laid-apart,
}

module _ (buffer_size object_count : ℕ) where
  -- Where the object goes, and the refusal.
  pub allocate_space-room :
      (s : Stack) (size alignment : ℕ)
      → s.used + padding (s.base + s.used) alignment + size ≤ buffer_size
      → buffer_size < 2 ^ 64
      → allocate_space buffer_size object_count s size alignment
        ≡ space
            (s.base + s.used + padding (s.base + s.used) alignment)
            (padding (s.base + s.used) alignment + size)
  unfolding allocate_space
  allocate_space-room s size alignment h small = ground arith

  pub allocate_space-full :
      (s : Stack) (size alignment : ℕ)
      → buffer_size < s.used + padding (s.base + s.used) alignment + size
      → s.used ≤ buffer_size
      → buffer_size < 2 ^ 64
      → allocate_space buffer_size object_count s size alignment ≡ unexpected buffer_overflow
  unfolding allocate_space
  allocate_space-full s size alignment h fits small = ground arith

  -- The bytes that an object takes with the padding before it.
  abbrev pub needed : Stack → ℕ → ℕ → ℕ
  needed s size alignment = padding (s.base + s.used) alignment + size

  pub placed-IsValid :
      (s : Stack) (o : Object)
      → IsValid buffer_size object_count s
      → length s.objects < object_count
      → s.used + needed s o.size o.alignment ≤ buffer_size
      → 0 < o.alignment
      → o.address ≡ s.base + s.used + padding (s.base + s.used) o.alignment
      → IsValid buffer_size object_count
          (placed buffer_size object_count s o (needed s o.size o.alignment))
  placed-IsValid s o v room h pos at = record {
    laid = rw end (Laid-snoc s.base s.objects 0 s.used o v.laid pos at);
    fits = omega (arith, v.small);
    few = omega (arith, length-append s.objects (o ∷ []));
    small = v.small;
  }
    where
      end :
          add64 s.used (needed s o.size o.alignment)
          ≡ s.used + padding (s.base + s.used) o.alignment + o.size
      end = omega (arith, v.small)

  -- `allocate` of a valid allocator fails its assertion exactly if all entries are taken or the
  -- object with its padding does not fit. Else it returns a multiple of the alignment, past all
  -- objects, at which the object lies inside the buffer, and appends the object's entry to those
  -- before; the allocator is valid again.
  pub allocate_lem :
      (s : Stack) (size alignment value : ℕ)
      → IsValid buffer_size object_count s
      → 0 < alignment
      → ((allocate buffer_size object_count s size alignment value ≡ none)
          × ((object_count ≤ length s.objects) ⊎ (buffer_size < s.used + needed s size alignment)))
        ⊎ ((p : ℕ) × (s' : Stack) × (allocate buffer_size object_count s size alignment value
              ≡ some (p, s'))
            × (p % alignment ≡ 0)
            × (s.base + s.used ≤ p)
            × (p + size ≤ s.base + buffer_size)
            × (s'.objects
                ≡ s.objects
                  ++ (record { address = p; size = size; alignment = alignment; value = value }
                      ∷ []))
            × IsValid buffer_size object_count s')
  unfolding allocate
  allocate_lem s size alignment value v pos = elim (dec_lt (length s.objects) object_count) [
    | no full ↦ inl (ground arith, inl (omega arith))
    | yes room ↦ elim (dec_lt buffer_size (s.used + needed s size alignment)) [
      | yes over ↦ inl (
        rw (allocate_space-full s size alignment (omega arith) v.fits v.small) (ground arith),
        inr over,
      )
      | no fits ↦
          let o : Object = record {
            address = s.base + s.used + padding (s.base + s.used) alignment;
            size = size;
            alignment = alignment;
            value = value;
          } in
          inr (
            o.address,
            placed buffer_size object_count s o (needed s size alignment),
            rw (allocate_space-room s size alignment (omega arith) v.small) (ground arith),
            padding_aligned (s.base + s.used) alignment pos,
            omega arith,
            omega arith,
            refl,
            placed-IsValid s o v room (omega arith) pos refl,
          )
    ]
  ]

  -- In a valid allocator every object lies inside the buffer at a multiple of its alignment, and
  -- no two objects share a byte.
  pub objects_apart :
      (s : Stack) (i j : ℕ) {o p : Object}
      → IsValid buffer_size object_count s
      → get_elem? s.objects i ≡ some o
      → get_elem? s.objects j ≡ some p
      → i < j
      → (o.address % o.alignment ≡ 0)
        × (s.base ≤ o.address)
        × (o.address + o.size ≤ p.address)
        × (p.address + p.size ≤ s.base + buffer_size)
  objects_apart s i j v at₁ at₂ h =
      let (low, _, aligned) = Laid-first s.base s.objects 0 s.used i v.laid at₁ in
      let (_, high, _) = Laid-first s.base s.objects 0 s.used j v.laid at₂ in
      (
        aligned,
        omega arith,
        Laid-apart s.base s.objects 0 s.used i j v.laid at₁ at₂ h,
        omega (arith, v.fits),
      )

  destroyed-reverse : (os : List Object) → destroyed os ≡ reverse os
  destroyed-reverse [] = refl
  destroyed-reverse (o ∷ os) =
      ap (λ l. l ++ (o ∷ [])) (destroyed-reverse os) ∙ sym (reverse-cons o os)

  -- `Reset` of a valid allocator destroys every object once, the last first, and leaves a valid
  -- allocator with the whole buffer free.
  pub reset_lem :
      (s : Stack)
      → IsValid buffer_size object_count s
      → let (gone, s') = reset buffer_size object_count s in
        (gone ≡ reverse s.objects)
        × (s'.objects ≡ [])
        × (s'.used ≡ 0)
        × IsValid buffer_size object_count s'
  unfolding reset
  reset_lem s v = (
    destroyed-reverse s.objects,
    refl,
    refl,
    empty-IsValid buffer_size object_count s.base v.small,
  )
