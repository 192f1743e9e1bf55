-- ===== src/Base/Tests.antt =====
-- Boolean tests, the conditional, and equality of the types that Go compares with `==`.
use native.Mathlib.Omega.{arith}
use Prim.Native.Nat.{ℕ, compare, Ordering}
use mathlib.Core.Path.{◌≡◌, refl}
use mathlib.Core.Logic.{◌⊎◌, inl, inr}
use mathlib.Core.Bool.{Bool, true, false}
use mathlib.Core.Option.{Option, none, some}
use native.Mathlib.Decide.{ℕ_discrete}

abbrev pub ltb : ℕ → ℕ → Bool
ltb a b = elim (compare a b) [ Ordering.lt ↦ true | _ ↦ false ]

abbrev pub leb : ℕ → ℕ → Bool
leb a b = elim (compare a b) [ Ordering.gt ↦ false | _ ↦ true ]

infix 50 ◌==◌
abbrev pub ◌==◌ : ℕ → ℕ → Bool
a == b = elim (compare a b) [ Ordering.eq ↦ true | _ ↦ false ]

infix 1 if◌then◌else◌
abbrev pub if◌then◌else◌ {ℓ} : {A : Type ℓ} → Bool → A → A → A
if true then x else y = x
if false then x else y = y

pub Bool-cases : (b : Bool) → (b ≡ true) ⊎ (b ≡ false)
Bool-cases true = inl refl
Bool-cases false = inr refl

pub Option-cases {ℓ} : {A : Type ℓ} (o : Option A) → (o ≡ none) ⊎ ((a : A) × (o ≡ some a))
Option-cases none = inl refl
Option-cases (some a) = inr (a, refl)

-- A type whose values Go compares with `==`: the key types of its maps.
pub record Comparable {ℓ} (A : Type ℓ) : Type ℓ where
  pub equals : Discrete A

-- `a == b` of Go, on any such type.
abbrev pub same {ℓ} : {A : Type ℓ} ⦃c : Comparable A⦄ → A → A → Bool
same ⦃c⦄ a b = elim (c.equals a b) [ yes _ ↦ true | no _ ↦ false ]

instance abbrev pub nat_comparable : Comparable ℕ
nat_comparable = record { equals = ℕ_discrete }

abbrev pub is_some {ℓ} : {A : Type ℓ} → Option A → Bool
is_some none = false
is_some (some a) = true

pub same_eq {ℓ} : {A : Type ℓ} ⦃c : Comparable A⦄ (a b : A) → same a b ≡ true → a ≡ b
same_eq a b h = ground arith

pub same_refl {ℓ} : {A : Type ℓ} ⦃c : Comparable A⦄ (a : A) → same a a ≡ true
same_refl a = ground arith
