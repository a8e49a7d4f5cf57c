-- ===== src/Prelude/Map.antt =====
-- JavaScript's `Map` with string keys: `set` keeps the place of a key that is there, and a new key
-- comes last, so the entries stand in insertion order.
use Prim.Native.String.{String}
use mathlib.Core.Path.{◌≡◌, refl}
use mathlib.Core.Bool.{false}
use mathlib.Core.Logic.{◌⊎◌}
use mathlib.Core.Option.{Option, none, some}
use mathlib.Core.List.{List, [], ◌∷◌, map}
use native.Mathlib.Omega.{arith}
use text.Mathlib.Text.{◌==◌ as str_eq}
use text.Mathlib.TextEquality.{eq_iff}
use perseverance.Prelude.Tests.{if◌then◌else◌}

abbrev pub Map {ℓ} : Type ℓ → Type ℓ
Map V = List (String × V)

module _ {ℓ} {V : Type ℓ} where
  unfoldable pub get : String → Map V → Option V
  get k [] = none
  get k ((j, v) ∷ m) = if str_eq j k then some v else get k m

  unfoldable pub set : String → V → Map V → Map V
  set k v [] = (k, v) ∷ []
  set k v ((j, w) ∷ m) = if str_eq j k then (j, v) ∷ m else (j, w) ∷ set k v m

  abbrev pub keys : Map V → List String
  keys m = map (λ (e : String × V). e.0) m

  abbrev pub values : Map V → List V
  values m = map (λ (e : String × V). e.1) m

  pub get-set :
      (k j : String) (v : V) (m : Map V)
      → get j (set k v m) ≡ (if str_eq k j then some v else get j m)
  unfolding get set
  get-set k j v [] = refl
  get-set k j v ((i, w) ∷ m) = ground (arith, eq_iff k j, eq_iff i k, eq_iff i j, get-set k j v m)

  pub get-set_self : (k : String) (v : V) (m : Map V) → get k (set k v m) ≡ some v
  get-set_self k v m = ground (arith, get-set k k v m, eq_iff k k)

  pub get-set_other :
      (k j : String) (v : V) (m : Map V) → str_eq k j ≡ false → get j (set k v m) ≡ get j m
  get-set_other k j v m e = rw get-set (rw e refl)

  -- A change of all values under their keys.
  unfoldable pub map_values : (V → V) → Map V → Map V
  map_values f [] = []
  map_values f ((k, v) ∷ m) = (k, f v) ∷ map_values f m

  abbrev pub map_option : (V → V) → Option V → Option V
  map_option f none = none
  map_option f (some v) = some (f v)

  pub get-map_values :
      (f : V → V) (k : String) (m : Map V) → get k (map_values f m) ≡ map_option f (get k m)
  unfolding get map_values
  get-map_values f k [] = refl
  get-map_values f k ((j, v) ∷ m) = ground (arith, get-map_values f k m)

  -- What a key is bound to after a `set`, and what it is not bound to.
  pub get-set_cases :
      (k j : String) (v x : V) (m : Map V)
      → get j (set k v m) ≡ some x
      → ((k ≡ j) × (v ≡ x)) ⊎ ((str_eq k j ≡ false) × (get j m ≡ some x))
  get-set_cases k j v x m e = ground (arith, get-set k j v m, eq_iff k j)

  pub get-set-none :
      (k j : String) (v : V) (m : Map V)
      → get j (set k v m) ≡ none
      → (str_eq k j ≡ false) × (get j m ≡ none)
  get-set-none k j v m e = ground (arith, get-set k j v m)
