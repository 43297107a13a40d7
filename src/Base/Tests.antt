-- ===== src/Base/Tests.antt =====
-- Boolean tests on the native numbers, the conditional, and calls that may panic.
use Prim.Native.Nat.{ℕ, compare, Ordering}
use mathlib.Core.Path.{◌≡◌, refl}
use mathlib.Core.Logic.{◌⊎◌, inl, inr}
use mathlib.Core.Bool.{Bool, true, false}
use mathlib.Core.Option.{Option, none, some}

abbrev pub ltb : ℕ → ℕ → Bool
ltb a b = elim (compare a b) [ Ordering.lt ↦ true | _ ↦ false ]

abbrev pub leb : ℕ → ℕ → Bool
leb a b = elim (compare a b) [ Ordering.gt ↦ false | _ ↦ true ]

infix 50 ◌==◌
abbrev pub ◌==◌ : ℕ → ℕ → Bool
a == b = elim (compare a b) [ Ordering.eq ↦ true | _ ↦ false ]

infix 1 if◌then◌else◌
abbrev pub if◌then◌else◌ {ℓ} : {A : Type ℓ} → Bool → A → A → A
if true then x else y = x
if false then x else y = y

pub Bool-cases : (b : Bool) → (b ≡ true) ⊎ (b ≡ false)
Bool-cases true = inl refl
Bool-cases false = inr refl

pub Option-cases {ℓ} : {A : Type ℓ} (o : Option A) → (o ≡ none) ⊎ ((a : A) × (o ≡ some a))
Option-cases none = inl refl
Option-cases (some a) = inr (a, refl)

-- A call that may panic returns an `Option`: `none` is a run-time panic, or a loop out of fuel.
infixl 5 ◌>>=◌
abbrev pub ◌>>=◌ {ℓ κ} : {A : Type ℓ} {B : Type κ} → Option A → (A → Option B) → Option B
none >>= f = none
some a >>= f = f a

-- The call returns, with a value that satisfies `P`.
pub data Returns {ℓ κ} {A : Type ℓ} (P : A → Type κ) : Option A → Type (ℓ ⊔ κ) where
  returns : {a : A} → P a → Returns P (some a)

module _ {ℓ κ} {A : Type ℓ} {P : A → Type κ} where
  pub Returns-some : {a : A} → Returns P (some a) → P a
  Returns-some (returns holds) = holds

  pub Returns-inv : {call : Option A} → Returns P call → (a : A) × (call ≡ some a) × P a
  Returns-inv (returns holds) = (_, refl, holds)

  pub Returns-none : Returns P none → ⊥
  Returns-none r = cc (Returns-inv r).1

  -- The branch that a test takes.
  pub Returns-if :
      {this that : Option A} (test : Bool)
      → (test ≡ true → Returns P this)
      → (test ≡ false → Returns P that)
      → Returns P (if test then this else that)
  Returns-if false taken left = left refl
  Returns-if true taken left = taken refl

  -- A call after a call, and a weaker property of a call.
  pub Returns-bind {μ ν} :
      {B : Type μ} {call : Option A} {next : A → Option B} {Q : B → Type ν}
      → Returns P call
      → ((x : A) → P x → Returns Q (next x))
      → Returns Q (call >>= next)
  Returns-bind (returns holds) after = after _ holds

  pub Returns-map {ν} :
      {call : Option A} {Q : A → Type ν} → Returns P call → ((x : A) → P x → Q x) → Returns Q call
  Returns-map (returns holds) weaken = returns (weaken _ holds)
