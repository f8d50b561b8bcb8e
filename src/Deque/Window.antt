-- ===== src/Deque/Window.antt =====
-- The tasks of a circular buffer between two absolute indices.
use native.Mathlib.Nat.{mod-add-mod, mod-eq_of_lt, mod-eq-sub-mod, mod-lt}
use engi_cs.Base.{
  ℕ, zero, suc, ◌+◌, ◌-◌, ◌%◌, ◌≤◌, ◌<◌, ◌≡◌, ◌≢◌, refl, ap, ap₂, ◌∙◌, List, [], ◌∷◌, ◌++◌, length,
  get_or, set, get_or-set_self, get_or-set_ne, dec_lt, arith,
}

-- Indices that differ by less than the capacity have different slots.
pub slot_ne : (n a k : ℕ) → 0 < k → k < n → (a + k) % n ≢ a % n
slot_ne n a k pos small = elim (dec_lt (a % n + k) n) [
  | yes p ↦ omega (arith, mod-add-mod a n k, mod-eq_of_lt p)
  | no p ↦ omega (
    arith,
    mod-add-mod a n k,
    mod-lt a {m = n} (omega arith),
    mod-eq-sub-mod {n = a % n + k} {m = n} (omega arith),
    mod-eq_of_lt {n = a % n + k - n} {m = n} (omega (arith, mod-lt a {m = n} (omega arith))),
  )
]

pub slot_ne_of_lt : (n a b : ℕ) → a < b → b < a + n → b % n ≢ a % n
slot_ne_of_lt n a b h k e =
    slot_ne n a (b - a) (omega arith) (omega arith) (ap (λ m. m % n) (omega arith) ∙ e)

-- the `k` tasks from absolute index `t` on
abbrev pub window : List ℕ → ℕ → ℕ → ℕ → List ℕ
window buf n t zero = []
window buf n t (suc k) = get_or buf (t % n) 0 ∷ window buf n (suc t) k

pub length-window : (buf : List ℕ) (n t k : ℕ) → length (window buf n t k) ≡ k
length-window buf n t zero = refl
length-window buf n t (suc k) = ap suc (length-window buf n (suc t) k)

-- The last task of a window.
pub window-snoc :
    (buf : List ℕ) (n t k : ℕ)
    → window buf n t (suc k) ≡ window buf n t k ++ (get_or buf ((t + k) % n) 0 ∷ [])
window-snoc buf n t zero = ap (λ i. get_or buf (i % n) 0 ∷ []) (omega arith)
window-snoc buf n t (suc k) = ap (◌∷◌ (get_or buf (t % n) 0)) (
    window-snoc buf n (suc t) k
    ∙ ap (λ i. window buf n (suc t) k ++ (get_or buf (i % n) 0 ∷ [])) (omega arith))

-- A write just outside of a window leaves it as it is.
pub window-set :
    (buf : List ℕ) (n t k b x : ℕ)
    → t + k ≤ b
    → b < t + n
    → window (set buf (b % n) x) n t k ≡ window buf n t k
window-set buf n t zero b x h l = refl
window-set buf n t (suc k) b x h l =
    ap₂ ◌∷◌ (get_or-set_ne buf x 0 (slot_ne_of_lt n t b (omega arith) (omega arith)))
      (window-set buf n (suc t) k b x (omega arith) (omega arith))

-- A write just past a window extends it by the task written.
pub window-push :
    (buf : List ℕ) (n t k x : ℕ)
    → n ≤ length buf
    → k < n
    → window (set buf ((t + k) % n) x) n t (suc k) ≡ window buf n t k ++ (x ∷ [])
window-push buf n t k x fits room =
    window-snoc (set buf ((t + k) % n) x) n t k
    ∙ ap₂ (λ xs y. xs ++ (y ∷ [])) (window-set buf n t k (t + k) x (omega arith) (omega arith))
        (get_or-set_self buf ((t + k) % n) x 0
          (omega (arith, mod-lt (t + k) {m = n} (omega arith))))
