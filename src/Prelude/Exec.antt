-- ===== src/Prelude/Exec.antt =====
-- Methods that change an object and may throw. What was written before a throw stays written, so
-- the state comes back beside the error too.
pub mod Keeps
pub mod Triple
use mathlib.Core.Path.{◌≡◌, refl, ap}
use mathlib.Core.Bool.{Bool, true, false}
use mathlib.Core.Option.{Option, none, some}
use mathlib.Core.List.{List, [], ◌∷◌}

pub data Result (E A : Type 0) : Type 0 where
  ok : A → Result E A
  err : E → Result E A

abbrev pub Exec : Type 0 → Type 0 → Type 0 → Type 0
Exec E S A = S → Result E A × S

module _ {E S A : Type 0} where
  unfoldable pub pure : A → Exec E S A
  pure a s = (ok a, s)

  unfoldable pub throw : E → Exec E S A
  throw e s = (err e, s)

  unfoldable pub gets : (S → A) → Exec E S A
  gets f s = (ok (f s), s)

  -- A value that may be missing, `if (!value) throw …`.
  unfoldable pub or_throw : Option A → E → Exec E S A
  or_throw none e s = (err e, s)
  or_throw (some a) e s = (ok a, s)

module _ {E S : Type 0} where
  unfoldable pub modify : (S → S) → Exec E S (Unit {0})
  modify f s = (ok tt, f s)

  -- `if (!test) throw e`.
  unfoldable pub require : Bool → E → Exec E S (Unit {0})
  require true e s = (ok tt, s)
  require false e s = (err e, s)

module _ {E S A B : Type 0} where
  abbrev pub continue : Result E A → (A → Exec E S B) → Exec E S B
  continue (ok a) f s = f a s
  continue (err e) f s = (err e, s)

  infixl 10 ◌>>=◌
  unfoldable pub ◌>>=◌ : Exec E S A → (A → Exec E S B) → Exec E S B
  unfolding pure throw gets or_throw modify require
  ◌>>=◌ m f s = let (r, t) = m s in continue r f t

infixl 10 ◌>>◌
abbrev pub ◌>>◌ : {E S A B : Type 0} → Exec E S A → Exec E S B → Exec E S B
m >> k = m >>= λ _. k

-- `for (const x of xs) body(x)`.
unfoldable pub for_each {ℓ} :
    {E S : Type 0} {X : Type ℓ} → (X → Exec E S (Unit {0})) → List X → Exec E S (Unit {0})
unfolding ◌>>=◌
for_each body [] = pure tt
for_each body (x ∷ xs) = body x >>= λ _. for_each body xs

-- What a call that returned has passed through: `m s ≡ (ok b, t)` taken apart from the front.
module _ {E S A : Type 0} where
  pub require_returns :
      (c : Bool) (e : E) (k : Unit {0} → Exec E S A) (s : S) {b : A} {t : S}
      → (require c e >>= k) s ≡ (ok b, t)
      → (c ≡ true) × (k tt s ≡ (ok b, t))
  unfolding ◌>>=◌
  require_returns true e k s h = (refl, h)
  require_returns false e k s h = cc (ap (λ p. p.0) h)

  pub bind_returns :
      {B : Type 0} (m : Exec E S B) (k : B → Exec E S A) (s : S) {b : A} {t : S}
      → (m >>= k) s ≡ (ok b, t)
      → (a : B) × (m s ≡ (ok a, (m s).1)) × (k a (m s).1 ≡ (ok b, t))
  unfolding ◌>>=◌
  bind_returns {B} m k s {b} {t} h = go (m s).0 refl h
    where
      go :
          (r : Result E B)
          → (m s).0 ≡ r
          → continue r k (m s).1 ≡ (ok b, t)
          → (a : B) × (m s ≡ (ok a, (m s).1)) × (k a (m s).1 ≡ (ok b, t))
      go (ok a) e f = (a, ap (λ (r : Result E B). (r, (m s).1)) e, f)
      go (err x) e f = cc (ap (λ p. p.0) f)

  pub or_throw_returns :
      {B : Type 0} (o : Option B) (e : E) (k : B → Exec E S A) (s : S) {b : A} {t : S}
      → (or_throw o e >>= k) s ≡ (ok b, t)
      → (a : B) × (o ≡ some a) × (k a s ≡ (ok b, t))
  unfolding ◌>>=◌
  or_throw_returns none e k s h = cc (ap (λ p. p.0) h)
  or_throw_returns (some a) e k s h = (a, refl, h)

  pub gets_returns :
      {B : Type 0} (f : S → B) (k : B → Exec E S A) (s : S) {r : Result E A × S}
      → (gets f >>= k) s ≡ r
      → k (f s) s ≡ r
  unfolding ◌>>=◌
  gets_returns f k s h = h

  pub modify_returns :
      (f : S → S) (k : Unit {0} → Exec E S A) (s : S) {r : Result E A × S}
      → (modify f >>= k) s ≡ r
      → k tt (f s) ≡ r
  unfolding ◌>>=◌
  modify_returns f k s h = h
