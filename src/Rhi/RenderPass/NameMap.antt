-- ===== src/Rhi/RenderPass/NameMap.antt =====
-- `std::unordered_map<std::string, uint32_t>` as an association list.
use Prim.Native.String.{String}
use text.Mathlib.Text.{◌==◌ as str_eq}
use text.Mathlib.TextEquality.{eq_iff}
use text.Mathlib.TextPositions.{eq_refl}
use engi_cs.Base.{ℕ, ◌≡◌, refl, Option, none, some, List, [], ◌∷◌, if◌then◌else◌, arith}

abbrev pub Names : Type 0
Names = List (String × ℕ)

unfoldable pub find : String → Names → Option ℕ
find k [] = none
find k ((j, v) ∷ m) = if str_eq j k then some v else find k m

unfoldable pub insert : String → ℕ → Names → Names
insert k v [] = (k, v) ∷ []
insert k v ((j, w) ∷ m) = if str_eq j k then (k, v) ∷ m else (j, w) ∷ insert k v m

pub find-insert :
    (k j : String) (v : ℕ) (m : Names)
    → find j (insert k v m) ≡ (if str_eq k j then some v else find j m)
unfolding find insert
find-insert k j v [] = refl
find-insert k j v ((i, w) ∷ m) =
    ground (arith, eq_iff k j, eq_iff i k, eq_iff i j, find-insert k j v m)

pub find-insert_self : (k : String) (v : ℕ) (m : Names) → find k (insert k v m) ≡ some v
find-insert_self k v m = simp (find-insert, eq_refl)
