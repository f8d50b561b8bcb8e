-- ===== src/Memory/Stack/Layout.antt =====
-- Where the objects of a valid allocator stand.
use mathlib.Core.Option.{some-injective}
use native.Mathlib.Nat.{mod-add-mod, add-mod-mod, mod_self, mod-lt}
use engi_cs.Base.{
  ℕ, zero, suc, ◌+◌, ◌-◌, ◌%◌, ◌^◌, ◌≤◌, ◌<◌, ◌≡◌, refl, sym, ap, ◌∙◌, some, List, [], ◌∷◌, ◌++◌,
  length, get_elem?, arith,
}
use engi_cs.Memory.Stack.{Object, Stack, padding}

-- The objects of a list stand one after the other from offset `start` on, each at the next multiple
-- of its alignment, and end at offset `end`.
unfoldable pub Laid : ℕ → ℕ → List Object → ℕ → Type 0
Laid base start [] end = start ≡ end
Laid base start (o ∷ os) end =
    (0 < o.alignment)
    × (o.address ≡ base + start + padding (base + start) o.alignment)
    × Laid base (start + padding (base + start) o.alignment + o.size) os end

pub record IsValid (buffer_size object_count : ℕ) (s : Stack) : Type 0 where
  pub laid : Laid s.base 0 s.objects s.used
  pub fits : s.used ≤ buffer_size
  pub few : length s.objects ≤ object_count
  pub small : buffer_size < 2 ^ 64

-- An allocator with no object in it.
pub empty-IsValid :
    (buffer_size object_count base : ℕ)
    → buffer_size < 2 ^ 64
    → IsValid buffer_size object_count (record { base = base; objects = []; used = 0 })
unfolding Laid
empty-IsValid buffer_size object_count base small = record {
  laid = refl;
  fits = omega arith;
  few = omega arith;
  small = small;
}

pub padding_aligned : (q a : ℕ) → 0 < a → (q + padding q a) % a ≡ 0
padding_aligned q a h =
    add-mod-mod q (a - q % a) a
    ∙ sym (mod-add-mod q a (a - q % a))
    ∙ ap (λ x. x % a) (omega (arith, mod-lt q {m = a} h))
    ∙ mod_self a

pub Laid-snoc :
    (base : ℕ) (os : List Object) (start end : ℕ) (o : Object)
    → Laid base start os end
    → 0 < o.alignment
    → o.address ≡ base + end + padding (base + end) o.alignment
    → Laid base start (os ++ (o ∷ [])) (end + padding (base + end) o.alignment + o.size)
unfolding Laid
Laid-snoc base [] start end o l h e = (h, rw l e, rw l refl)
Laid-snoc base (p ∷ os) start end o (l₀, l₁, l₂) h e =
    (l₀, l₁, Laid-snoc base os (start + padding (base + start) p.alignment + p.size) end o l₂ h e)

pub Laid-le : (base : ℕ) (os : List Object) (start end : ℕ) → Laid base start os end → start ≤ end
unfolding Laid
Laid-le base [] start end l = omega arith
Laid-le base (o ∷ os) start end (l₀, l₁, l₂) =
    omega (arith, Laid-le base os (start + padding (base + start) o.alignment + o.size) end l₂)

-- An object of the list, and one that stands after it.
pub Laid-first :
    (base : ℕ) (os : List Object) (start end i : ℕ) {o : Object}
    → Laid base start os end
    → get_elem? os i ≡ some o
    → (base + start ≤ o.address) × (o.address + o.size ≤ base + end) × (o.address % o.alignment ≡ 0)
unfolding Laid
Laid-first base [] start end i l at = cc
Laid-first base (p ∷ os) start end zero {o} (l₀, l₁, l₂) at = rw (sym (some-injective p o at)) (
  omega arith,
  omega (arith, Laid-le base os (start + padding (base + start) p.alignment + p.size) end l₂),
  ap (λ x. x % p.alignment) l₁ ∙ padding_aligned (base + start) p.alignment l₀,
)
Laid-first base (p ∷ os) start end (suc i) (l₀, l₁, l₂) at =
    let (low, high, aligned) =
      Laid-first base os (start + padding (base + start) p.alignment + p.size) end i l₂ at in
    (omega arith, high, aligned)

pub Laid-apart :
    (base : ℕ) (os : List Object) (start end i j : ℕ) {o p : Object}
    → Laid base start os end
    → get_elem? os i ≡ some o
    → get_elem? os j ≡ some p
    → i < j
    → o.address + o.size ≤ p.address
unfolding Laid
Laid-apart base [] start end i j l at₁ at₂ h = cc
Laid-apart base (q ∷ os) start end zero zero l at₁ at₂ h = omega arith
Laid-apart base (q ∷ os) start end zero (suc j) {o} (l₀, l₁, l₂) at₁ at₂ h =
    let (low, _, _) =
      Laid-first base os (start + padding (base + start) q.alignment + q.size) end j l₂ at₂ in
    rw (sym (some-injective q o at₁)) (omega arith)
Laid-apart base (q ∷ os) start end (suc i) zero l at₁ at₂ h = omega arith
Laid-apart base (q ∷ os) start end (suc i) (suc j) (l₀, l₁, l₂) at₁ at₂ h =
    Laid-apart base os (start + padding (base + start) q.alignment + q.size) end i j l₂ at₁ at₂
      (omega arith)
