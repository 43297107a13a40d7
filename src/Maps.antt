-- ===== src/Maps.antt =====
-- Go's maps by texts as association lists.
use artie_takehome.Base.{
  ◌≡◌, refl, ap, Bool-cases, inl, inr, String, List, [], ◌∷◌, Option, none, some, if◌then◌else◌,
  str_eq, str_eq_iff, arith,
}

module _ {ℓ} {A : Type ℓ} where
  unfoldable pub find : String → List (String × A) → Option A
  find k [] = none
  find k ((j, a) ∷ map) = if str_eq j k then some a else find k map

  unfoldable pub erase : String → List (String × A) → List (String × A)
  erase k [] = []
  erase k ((j, a) ∷ map) = if str_eq j k then erase k map else (j, a) ∷ erase k map

  unfoldable pub insert : String → A → List (String × A) → List (String × A)
  unfolding erase
  insert k a map = (k, a) ∷ erase k map

  pub find-erase :
      (j k : String) (map : List (String × A))
      → find j (erase k map) ≡ (if str_eq k j then none else find j map)
  unfolding find erase
  find-erase j k [] = ground arith
  find-erase j k ((i, a) ∷ map) =
      ground (arith, str_eq_iff k j, str_eq_iff i k, str_eq_iff i j, find-erase j k map)

  pub find-insert :
      (j k : String) (a : A) (map : List (String × A))
      → find j (insert k a map) ≡ (if str_eq k j then some a else find j map)
  unfolding insert find
  find-insert j k a map = ground (arith, find-erase j k map)

  -- Erasing what is not there changes nothing.
  pub erase_absent : (k : String) (map : List (String × A)) → find k map ≡ none → erase k map ≡ map
  unfolding find erase
  erase_absent k [] e = refl
  erase_absent k ((j, a) ∷ map) e = elim (Bool-cases (str_eq j k)) [
    | inl same ↦ absurd (cc (rw same at e))
    | inr other ↦
        rw other (ap (λ (m : List (String × A)). (j, a) ∷ m) (erase_absent k map (rw other at e)))
  ]

-- No key is there twice.
abbrev pub IsUnique {ℓ} : {A : Type ℓ} → List (String × A) → Type ℓ
IsUnique [] = Unit
IsUnique ((k, a) ∷ map) = (find k map ≡ none) × IsUnique map

erase-IsUnique {ℓ} :
    {A : Type ℓ} (k : String) (map : List (String × A)) → IsUnique map → IsUnique (erase k map)
unfolding erase
erase-IsUnique k [] v = tt
erase-IsUnique k ((j, a) ∷ map) (here, rest) = elim (Bool-cases (str_eq j k)) [
  | inl same ↦ rw same (erase-IsUnique k map rest)
  | inr other ↦ rw other (gone, erase-IsUnique k map rest)
]
  where
    gone : find j (erase k map) ≡ none
    gone = ground (arith, find-erase j k map, here)

-- An insertion keeps the keys apart.
pub insert-IsUnique {ℓ} :
    {A : Type ℓ} (k : String) (a : A) (map : List (String × A))
    → IsUnique map
    → IsUnique (insert k a map)
unfolding insert
insert-IsUnique k a map v =
    (ground (arith, find-erase k k map, str_eq_iff k k), erase-IsUnique k map v)
