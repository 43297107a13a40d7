-- ===== src/Queue/Leases.antt =====
-- The map from receipts to leased messages, as an association list.
use artie_takehome.Base.{
  ℕ, ◌≡◌, String, List, [], ◌∷◌, Option, none, some, if◌then◌else◌, str_eq, str_eq_iff, arith,
}

unfoldable pub lookup : String → List (String × ℕ) → Option ℕ
lookup k [] = none
lookup k ((j, m) ∷ ls) = if str_eq j k then some m else lookup k ls

unfoldable pub delete : String → List (String × ℕ) → List (String × ℕ)
delete k [] = []
delete k ((j, m) ∷ ls) = if str_eq j k then delete k ls else (j, m) ∷ delete k ls

unfoldable pub put : String → ℕ → List (String × ℕ) → List (String × ℕ)
unfolding delete
put k m ls = (k, m) ∷ delete k ls

pub lookup-delete :
    (j k : String) (ls : List (String × ℕ))
    → lookup j (delete k ls) ≡ (if str_eq k j then none else lookup j ls)
unfolding lookup delete
lookup-delete j k [] = ground arith
lookup-delete j k ((i, m) ∷ ls) =
    ground (arith, str_eq_iff k j, str_eq_iff i k, str_eq_iff i j, lookup-delete j k ls)

pub lookup-put :
    (j k : String) (m : ℕ) (ls : List (String × ℕ))
    → lookup j (put k m ls) ≡ (if str_eq k j then some m else lookup j ls)
unfolding put lookup
lookup-put j k m ls = ground (arith, lookup-delete j k ls)
