-- ===== src/Base/Tests.antt =====
-- Boolean tests, the conditional, and the interface of `PartialEq`.
use Prim.Native.Nat.{ℕ, compare, Ordering}
use mathlib.Core.Path.{◌≡◌, refl}
use mathlib.Core.Logic.{◌↔◌, ◌⊎◌, inl, inr}
use mathlib.Core.Bool.{Bool, true, false}
use mathlib.Core.Option.{Option, none, some}

abbrev pub ltb : ℕ → ℕ → Bool
ltb a b = elim (compare a b) [ Ordering.lt ↦ true | _ ↦ false ]

infix 1 if◌then◌else◌
abbrev pub if◌then◌else◌ {ℓ} : {A : Type ℓ} → Bool → A → A → A
if true then x else y = x
if false then x else y = y

-- Rust's derived `==`, which decides equality.
pub record Eq {ℓ} (A : Type ℓ) : Type ℓ where
  pub eqb : A → A → Bool
  pub eqb_iff : (a b : A) → (eqb a b ≡ true) ↔ (a ≡ b)

infix 50 ◌==◌
abbrev pub ◌==◌ {ℓ} : {A : Type ℓ} ⦃e : Eq A⦄ → A → A → Bool
◌==◌ ⦃e⦄ = e.eqb

abbrev pub holds {ℓ} : {A : Type ℓ} → Dec A → Bool
holds (yes _) = true
holds (no _) = false

pub holds_iff {ℓ} : {A : Type ℓ} (d : Dec A) → (holds d ≡ true) ↔ A
holds_iff (yes p) = (λ _. p, λ _. refl)
holds_iff (no n) = (λ e. cc, λ p. absurd (n p))

abbrev pub eq_of_discrete {ℓ} : {A : Type ℓ} → Discrete A → Eq A
eq_of_discrete d = record { eqb = λ a b. holds (d a b); eqb_iff = λ a b. holds_iff (d a b) }

-- To split on a computed value and keep the equation.
pub Bool-cases : (b : Bool) → (b ≡ true) ⊎ (b ≡ false)
Bool-cases true = inl refl
Bool-cases false = inr refl

pub Option-cases {ℓ} : {A : Type ℓ} (o : Option A) → (o ≡ none) ⊎ ((a : A) × (o ≡ some a))
Option-cases none = inl refl
Option-cases (some a) = inr (a, refl)
