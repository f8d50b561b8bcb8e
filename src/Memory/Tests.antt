-- ===== src/Memory/Tests.antt =====
-- An allocator of 64 bytes with two objects in it, at concrete inputs.
use engi_cs.Base.{
  ℕ, ◌+◌, ◌%◌, ◌≤◌, ◌<◌, ◌≡◌, refl, ◌⊎◌, none, some, [], ◌∷◌, ◌++◌, map, length, arith,
}
use engi_cs.Memory.Stack.{Object, Stack, allocate, allocate_space, move_each, move_from}
use engi_cs.Memory.Stack.Layout.{Laid, IsValid}
use engi_cs.Memory.Stack.Allocate.{needed, allocate_lem, objects_apart}
use engi_cs.Memory.Stack.Move.{AllDivide, shifted, move_from_lem}

-- 4 bytes, and 8 bytes at a multiple of 8
abbrev flag : Object
flag = record { address = 0x1000; size = 4; alignment = 4; value = 1 }

abbrev number : Object
number = record { address = 0x1008; size = 8; alignment = 8; value = 2 }

abbrev both : Stack
both = record { base = 0x1000; objects = flag ∷ number ∷ []; used = 16 }

both-IsValid : IsValid 64 3 both
unfolding Laid
both-IsValid = record {
  laid = (omega arith, refl, (omega arith, refl, refl));
  fits = omega arith;
  few = omega arith;
  small = omega arith;
}

both-AllDivide : AllDivide 16 both.objects
unfolding AllDivide
both-AllDivide = (refl, (refl, record {}))

allocate_lem_example :
    ((allocate 64 3 both 32 16 3 ≡ none)
      × ((3 ≤ length both.objects) ⊎ (64 < both.used + needed 64 3 both 32 16)))
    ⊎ ((p : ℕ) × (s' : Stack) × (allocate 64 3 both 32 16 3 ≡ some (p, s'))
        × (p % 16 ≡ 0)
        × (both.base + both.used ≤ p)
        × (p + 32 ≤ both.base + 64)
        × (s'.objects
            ≡ both.objects ++ (record { address = p; size = 32; alignment = 16; value = 3 } ∷ []))
        × IsValid 64 3 s')
allocate_lem_example = allocate_lem 64 3 both 32 16 3 both-IsValid (omega arith)

objects_apart_run :
    (flag.address % flag.alignment ≡ 0)
    × (both.base ≤ flag.address)
    × (flag.address + flag.size ≤ number.address)
    × (number.address + number.size ≤ both.base + 64)
objects_apart_run = objects_apart 64 3 both 0 1 both-IsValid refl refl (omega arith)

move_from_lem_example :
    (new : Stack) × (old : Stack) × (move_from 64 3 0x2000 both ≡ some (new, old))
    × (new.objects ≡ map (shifted 0x1000 0x2000) both.objects)
    × (new.base ≡ 0x2000)
    × (new.used ≡ both.used)
    × (old.objects ≡ [])
    × IsValid 64 3 new
move_from_lem_example = move_from_lem 64 3 16 both 0x2000 both-IsValid refl refl both-AllDivide

-- an object that needs more alignment than the buffer has may not fit where it is moved
moved_over_aligned :
    move_from 64 3 8 (record {
      base = 64;
      objects = record { address = 64; size = 64; alignment = 64; value = 1 } ∷ [];
      used = 64;
    })
    ≡ none
unfolding move_from move_each allocate_space
moved_over_aligned = refl
