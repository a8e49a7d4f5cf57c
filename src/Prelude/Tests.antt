-- ===== src/Prelude/Tests.antt =====
-- Boolean tests on native numbers and on optional values, and the conditional.
use Prim.Native.Nat.{ℕ, ◌≤◌, ◌<◌, min, compare, Ordering}
use Prim.Native.String.{String}
use mathlib.Core.Path.{◌≡◌, refl}
use mathlib.Core.Logic.{◌⊎◌, inl, inr}
use mathlib.Core.Bool.{Bool, true, false, not, ◌&&◌}
use mathlib.Core.Option.{Option, none, some}
use native.Mathlib.Omega.{arith}
use text.Mathlib.Text.{◌==◌ as str_eq}
use text.Mathlib.TextEquality.{eq_iff}

abbrev pub ltb : ℕ → ℕ → Bool
ltb a b = elim (compare a b) [ Ordering.lt ↦ true | _ ↦ false ]

abbrev pub leb : ℕ → ℕ → Bool
leb a b = elim (compare a b) [ Ordering.gt ↦ false | _ ↦ true ]

infix 50 ◌==◌
abbrev pub ◌==◌ : ℕ → ℕ → Bool
a == b = elim (compare a b) [ Ordering.eq ↦ true | _ ↦ false ]

infix 1 if◌then◌else◌
abbrev pub if◌then◌else◌ {ℓ} : {A : Type ℓ} → Bool → A → A → A
if true then x else y = x
if false then x else y = y

-- `a === b` for `string | null`.
abbrev pub opt_eq : Option String → Option String → Bool
opt_eq none none = true
opt_eq (some a) (some b) = str_eq a b
opt_eq _ _ = false

abbrev pub is_some {ℓ} : {A : Type ℓ} → Option A → Bool
is_some none = false
is_some (some _) = true

-- To split on a computed value and keep the equation.
pub Bool-cases : (b : Bool) → (b ≡ true) ⊎ (b ≡ false)
Bool-cases true = inl refl
Bool-cases false = inr refl

pub Option-cases {ℓ} : {A : Type ℓ} (o : Option A) → (o ≡ none) ⊎ ((a : A) × (o ≡ some a))
Option-cases none = inl refl
Option-cases (some a) = inr (a, refl)

pub of_some {ℓ} : {A : Type ℓ} {a b : A} → some a ≡ some b → a ≡ b
of_some h = cc

-- What the tests say when they hold.
pub both_of : {a b : Bool} → (a && b) ≡ true → (a ≡ true) × (b ≡ true)
both_of {a = a} {b = b} h = (ground arith, ground arith)

pub false_of : {b : Bool} → not b ≡ true → b ≡ false
false_of {b = b} h = ground arith

pub none_of {ℓ} : {A : Type ℓ} {o : Option A} → not (is_some o) ≡ true → o ≡ none
none_of {o = none} h = refl
none_of {o = some a} h = cc

pub same_option : {a b : Option String} → opt_eq a b ≡ true → a ≡ b
same_option {a = none} {b = none} h = refl
same_option {a = none} {b = some y} h = cc
same_option {a = some x} {b = none} h = cc
same_option {a = some x} {b = some y} h = ground (arith, h, eq_iff x y)

pub same_text : {a b : String} → str_eq a b ≡ true → a ≡ b
same_text {a = a} {b = b} h = (eq_iff a b).0 h

pub same_number : {a b : ℕ} → (a == b) ≡ true → a ≡ b
same_number {a = a} {b = b} h = ground arith

pub below : {a b : ℕ} → ltb a b ≡ true → a < b
below {a = a} {b = b} h = ground arith

pub at_most : {a b : ℕ} → leb a b ≡ true → a ≤ b
at_most {a = a} {b = b} h = ground arith

pub above : {a b : ℕ} → not (leb a b) ≡ true → b < a
above {a = a} {b = b} h = ground arith

pub min_cases : (a b : ℕ) → (min a b ≡ a) ⊎ (min a b ≡ b)
min_cases a b = elim (Bool-cases (leb a b)) [
  | inl h ↦ inl (ground (arith, h))
  | inr h ↦ inr (ground (arith, h))
]
