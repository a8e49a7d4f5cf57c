-- ===== src/Prelude/Lists.antt =====
-- Lists measured by native numbers and searched by Boolean tests.
use Prim.Native.Nat.{ℕ, suc, ◌+◌}
use Prim.Native.String.{String}
use mathlib.Core.Path.{◌≡◌, refl, ap, subst}
use mathlib.Core.Bool.{Bool, true, false, ◌||◌}
use mathlib.Core.Logic.{inl, inr}
use mathlib.Core.Option.{Option, none, some}
use mathlib.Core.List.{List, [], ◌∷◌, ◌++◌, append-nil}
use native.Mathlib.Omega.{arith}
use text.Mathlib.Text.{◌==◌ as str_eq}
use text.Mathlib.TextEquality.{eq_iff}
use perseverance.Prelude.Tests.{if◌then◌else◌, Bool-cases}

module _ {ℓ} {A : Type ℓ} where
  abbrev pub length : List A → ℕ
  length [] = 0
  length (x ∷ xs) = suc (length xs)

  -- `Array.prototype.filter`.
  abbrev pub filter : (A → Bool) → List A → List A
  filter p [] = []
  filter p (x ∷ xs) = let rest = filter p xs in if p x then x ∷ rest else rest

  -- `Array.prototype.some`.
  abbrev pub any : (A → Bool) → List A → Bool
  any p [] = false
  any p (x ∷ xs) = p x || any p xs

  -- `Array.prototype.find`.
  abbrev pub find : (A → Bool) → List A → Option A
  find p [] = none
  find p (x ∷ xs) = if p x then some x else find p xs

  -- The first element that passes the test is changed in place.
  abbrev pub update_first : (A → Bool) → (A → A) → List A → List A
  update_first p f [] = []
  update_first p f (x ∷ xs) = if p x then f x ∷ xs else x ∷ update_first p f xs

  pub length-append : (xs ys : List A) → length (xs ++ ys) ≡ length xs + length ys
  length-append [] ys = omega arith
  length-append (x ∷ xs) ys = omega (arith, length-append xs ys)

  pub filter-append :
      (p : A → Bool) (xs ys : List A) → filter p (xs ++ ys) ≡ filter p xs ++ filter p ys
  filter-append p [] ys = refl
  filter-append p (x ∷ xs) ys = ground (arith, filter-append p xs ys)

  pub any-append : (p : A → Bool) (xs ys : List A) → any p (xs ++ ys) ≡ (any p xs || any p ys)
  any-append p [] ys = refl
  any-append p (x ∷ xs) ys = ground (arith, any-append p xs ys)

-- `ids.includes(id)`.
abbrev pub contains : String → List String → Bool
contains id = any (λ x. str_eq x id)

module _ {ℓ} {A : Type ℓ} where
  pub filter-snoc :
      (p : A → Bool) (xs : List A) (a : A)
      → p a ≡ true
      → filter p (xs ++ a ∷ []) ≡ filter p xs ++ a ∷ []
  filter-snoc p xs a h = rw filter-append (rw h)

  pub filter-snoc_refused :
      (p : A → Bool) (xs : List A) (a : A) → p a ≡ false → filter p (xs ++ a ∷ []) ≡ filter p xs
  filter-snoc_refused p xs a h = rw filter-append (rw h (append-nil _))

-- What `find` returns has passed the test.
pub find_passes {ℓ} :
    {A : Type ℓ} (p : A → Bool) (xs : List A) {x : A} → find p xs ≡ some x → p x ≡ true
find_passes p [] e = cc
find_passes p (y ∷ xs) {x = x} e = ground (arith, find_passes p xs {x = x})

-- The list has the element.
abbrev pub IsIn {ℓ} : {A : Type ℓ} → A → List A → Type ℓ
IsIn {A = A} a xs = (ys : List A) × (zs : List A) × (xs ≡ ys ++ a ∷ zs)

-- What `any` answers for has passed the test and is an element.
pub any-IsIn {ℓ} :
    {A : Type ℓ} (p : A → Bool) (xs : List A) → any p xs ≡ true → (a : A) × (p a ≡ true) × IsIn a xs
any-IsIn p [] h = cc
any-IsIn p (x ∷ xs) h = elim (Bool-cases (p x)) [
  | inl b ↦ (x, b, ([], xs, refl))
  | inr b ↦
      let (a, t, (ys, zs, e)) = any-IsIn p xs (rw b at h) in (a, t, (x ∷ ys, zs, ap (λ l. x ∷ l) e))
]

pub contains-IsIn : (id : String) (xs : List String) → contains id xs ≡ true → IsIn id xs
contains-IsIn id xs h =
    let (a, t, i) = any-IsIn (λ x. str_eq x id) xs h in subst (λ x. IsIn x xs) ((eq_iff a id).0 t) i

pub IsIn-contains : (id : String) (xs : List String) → IsIn id xs → contains id xs ≡ true
IsIn-contains id xs ([], zs, e) = rw (e, (eq_iff id id).1 refl) refl
IsIn-contains id xs (y ∷ ys, zs, e) =
    rw (e, IsIn-contains id (ys ++ id ∷ zs) (ys, zs, refl)) (later (str_eq y id))
  where
    later : (b : Bool) → (b || true) ≡ true
    later true = refl
    later false = refl
