-- ===== src/Base/Slots.antt =====
-- Slices of pointers as lists under native indices. A pointer is a number; 0 is nil.
use mathlib.Core.List.{Permᴰ, perm_middle, append-nil, List, [], ◌∷◌, ◌++◌, Perm}
use mathlib.Core.List.Perm
use mathlib.Core.Logic.{∥∥₁_elim}
use mathlib.Core.Path.{◌≡◌, refl, ap}
use mathlib.Core.Option.{Option, none, some}
use native.Mathlib.Nat.{ℕ_set}
use native.Mathlib.Omega.{arith}
use Prim.Native.Nat.{ℕ, zero, suc, ◌+◌, ◌<◌, ◌≤◌}
use artie_takehome.Base.Tests.{◌==◌, if◌then◌else◌}

module _ {ℓ} {A : Type ℓ} where
  abbrev pub length : List A → ℕ
  length [] = 0
  length (x ∷ xs) = suc (length xs)

  abbrev pub get_elem? : List A → ℕ → Option A
  get_elem? [] i = none
  get_elem? (x ∷ xs) zero = some x
  get_elem? (x ∷ xs) (suc i) = get_elem? xs i

  abbrev pub set : List A → ℕ → A → List A
  set [] i v = []
  set (x ∷ xs) zero v = v ∷ xs
  set (x ∷ xs) (suc i) v = x ∷ set xs i v

  abbrev pub take : ℕ → List A → List A
  take zero xs = []
  take (suc n) [] = []
  take (suc n) (x ∷ xs) = x ∷ take n xs

  pub length-append : (xs ys : List A) → length (xs ++ ys) ≡ length xs + length ys
  length-append [] ys = omega arith
  length-append (x ∷ xs) ys = omega (arith, length-append xs ys)

  pub length-set : (xs : List A) (i : ℕ) (v : A) → length (set xs i v) ≡ length xs
  length-set [] i v = refl
  length-set (x ∷ xs) zero v = refl
  length-set (x ∷ xs) (suc i) v = ap suc (length-set xs i v)

  -- A permutation keeps the size.
  size-perm : {xs ys : List A} → Permᴰ xs ys → length xs ≡ length ys
  size-perm (Permᴰ.trans p q) = omega (arith, size-perm p, size-perm q)
  size-perm (Permᴰ.cons _ rest) = omega (arith, size-perm rest)
  size-perm (Permᴰ.swap _ _) = refl
  size-perm Permᴰ.nil = refl

  pub concat-perm : (xs : List A) (x : A) → Perm (xs ++ x ∷ []) (x ∷ xs)
  concat-perm xs x = rw (append-nil xs) at (perm_middle {a = x} xs [])

  pub length-perm : {xs ys : List A} → Perm xs ys → length xs ≡ length ys
  length-perm same = ∥∥₁_elim same (ℕ_set _ _) size-perm

  pub length-take : (n : ℕ) (xs : List A) → n ≤ length xs → length (take n xs) ≡ n
  length-take zero xs h = refl
  length-take (suc n) [] h = absurd (omega arith)
  length-take (suc n) (x ∷ xs) h = ap suc (length-take n xs (omega arith))

-- The pointer in a slot, or nil.
unfoldable pub slot : List ℕ → ℕ → ℕ
slot [] i = 0
slot (x ∷ xs) zero = x
slot (x ∷ xs) (suc i) = slot xs i

pub get_elem?-slot : (xs : List ℕ) (i : ℕ) → i < length xs → get_elem? xs i ≡ some (slot xs i)
unfolding slot
get_elem?-slot [] i h = absurd (omega arith)
get_elem?-slot (x ∷ xs) zero h = refl
get_elem?-slot (x ∷ xs) (suc i) h = get_elem?-slot xs i (omega arith)

pub slot-set :
    (xs : List ℕ) (i v : ℕ)
    → i < length xs
    → (j : ℕ) → slot (set xs i v) j ≡ (if i == j then v else slot xs j)
unfolding slot
slot-set [] i v h j = absurd (omega arith)
slot-set (x ∷ xs) zero v h zero = refl
slot-set (x ∷ xs) (suc i) v h (suc j) = ground (arith, slot-set xs i v (omega arith) j)
slot-set (x ∷ xs) i v h j = ground arith

pub slot-append_left : (xs ys : List ℕ) (i : ℕ) → i < length xs → slot (xs ++ ys) i ≡ slot xs i
unfolding slot
slot-append_left [] ys i h = absurd (omega arith)
slot-append_left (x ∷ xs) ys zero h = refl
slot-append_left (x ∷ xs) ys (suc i) h = slot-append_left xs ys i (omega arith)

pub slot-append_last : (xs : List ℕ) (v i : ℕ) → i ≡ length xs → slot (xs ++ v ∷ []) i ≡ v
unfolding slot
slot-append_last [] v zero h = refl
slot-append_last [] v (suc i) h = absurd (omega arith)
slot-append_last (x ∷ xs) v zero h = absurd (omega arith)
slot-append_last (x ∷ xs) v (suc i) h = slot-append_last xs v i (omega arith)

pub slot-take : (n : ℕ) (xs : List ℕ) (i : ℕ) → i < n → slot (take n xs) i ≡ slot xs i
unfolding slot
slot-take zero xs i h = absurd (omega arith)
slot-take (suc n) [] i h = refl
slot-take (suc n) (x ∷ xs) zero h = refl
slot-take (suc n) (x ∷ xs) (suc i) h = slot-take n xs i (omega arith)

pub take-append-slot : (n : ℕ) (xs : List ℕ) → length xs ≡ suc n → take n xs ++ slot xs n ∷ [] ≡ xs
unfolding slot
take-append-slot n [] h = absurd (omega arith)
take-append-slot zero (x ∷ []) h = refl
take-append-slot zero (x ∷ y ∷ xs) h = absurd (omega arith)
take-append-slot (suc n) (x ∷ xs) h = ap (◌∷◌ x) (take-append-slot n xs (omega arith))

-- Writing a slot trades its old pointer for the new one.
set-perm : (xs : List ℕ) (i v : ℕ) → i < length xs → Perm (slot xs i ∷ set xs i v) (v ∷ xs)
unfolding slot
set-perm [] i v h = absurd (omega arith)
set-perm (x ∷ xs) zero v h = Perm.swap v x xs
set-perm (x ∷ xs) (suc i) v h =
    Perm.trans (Perm.swap x _ _)
      (Perm.trans (Perm.cons x (set-perm xs i v (omega arith))) (Perm.swap v x xs))

unfoldable pub exchange : List ℕ → ℕ → ℕ → List ℕ
exchange xs i j = set (set xs i (slot xs j)) j (slot xs i)

pub length-exchange : (xs : List ℕ) (i j : ℕ) → length (exchange xs i j) ≡ length xs
unfolding exchange
length-exchange xs i j = simp length-set

module _ (xs : List ℕ) (i j : ℕ) (hi : i < length xs) (hj : j < length xs) where
  pub slot-exchange :
      (c : ℕ)
      → slot (exchange xs i j) c
        ≡ (if j == c then slot xs i else if i == c then slot xs j else slot xs c)
  unfolding exchange
  slot-exchange c = rw (
    slot-set (set xs i (slot xs j)) j (slot xs i) (rw length-set hj) c,
    slot-set xs i (slot xs j) hi c,
  )

  pub exchange-perm : Perm (exchange xs i j) xs
  unfolding exchange
  exchange-perm =
      let ys = set xs i (slot xs j) in
      let kept : slot ys j ≡ slot xs j = ground (arith, slot-set xs i (slot xs j) hi j) in
      let second = rw kept at (set-perm ys j (slot xs i) (rw length-set hj)) in
      Perm.cons_inv (Perm.trans second (set-perm xs i (slot xs j) hi))
