-- ===== src/Prelude/Exec/Keeps.antt =====
-- What a method keeps in every outcome: of the state after it, a property that held before.
use perseverance.Prelude.Exec.{
  Result, ok, err, Exec, pure, gets, or_throw, require, continue, ◌>>=◌,
}
use mathlib.Core.Path.{◌≡◌, refl}
use mathlib.Core.Bool.{Bool, true, false}
use mathlib.Core.Option.{Option, none, some}

abbrev pub the : (A : Type 0) → A → A
the A a = a

abbrev pub Keeps : {E S A : Type 0} → (S → Type 0) → Exec E S A → Type 0
Keeps {S = S} P m = (s : S) → P s → P (m s).1

module _ {E S : Type 0} (P : S → Type 0) where
  continue-Keeps :
      {A B : Type 0} (r : Result E A) (k : A → Exec E S B) (s : S)
      → ((a : A) → Keeps P (k a))
      → P s
      → P (continue r k s).1
  continue-Keeps (ok a) k s f p = f a s p
  continue-Keeps (err e) k s f p = p

  pub bind-Keeps :
      {A B : Type 0} (m : Exec E S A) (k : A → Exec E S B)
      → Keeps P m
      → ((a : A) → Keeps P (k a))
      → Keeps P (m >>= k)
  unfolding ◌>>=◌
  bind-Keeps m k f g s p = continue-Keeps (m s).0 k (m s).1 g (f s p)

  pub require-Keeps : (b : Bool) (e : E) → Keeps P (require b e)
  unfolding require
  require-Keeps true e s p = p
  require-Keeps false e s p = p

  pub or_throw-Keeps : {A : Type 0} (o : Option A) (e : E) → Keeps P (or_throw o e)
  unfolding or_throw
  or_throw-Keeps none e s p = p
  or_throw-Keeps (some a) e s p = p

module _ (E : Type 0) {S : Type 0} (P : S → Type 0) {A : Type 0} where
  pub pure-Keeps : (a : A) → Keeps P (the (Exec E S A) (pure a))
  unfolding pure
  pure-Keeps a s p = p

  pub gets-Keeps : (f : S → A) → Keeps P (the (Exec E S A) (gets f))
  unfolding gets
  gets-Keeps f s p = p

-- A method that neither reads nor writes the state.
abbrev pub Stateless : {E S A : Type 0} → Exec E S A → Type 0
Stateless {E = E} {S = S} {A = A} m = (r : Result E A) × ((s : S) → m s ≡ (r, s))

module _ {E S A B : Type 0} where
  bind-returned :
      (r : Result E A) (m : Exec E S A) (k : A → Exec E S B)
      → ((s : S) → m s ≡ (r, s))
      → ((a : A) → Stateless (k a))
      → Stateless (m >>= k)
  unfolding ◌>>=◌
  bind-returned (ok a) m k same f = ((f a).0, λ s. rw (same s) ((f a).1 s))
  bind-returned (err e) m k same f = (err e, λ s. rw (same s) refl)

  pub bind-Stateless :
      (m : Exec E S A) (k : A → Exec E S B)
      → Stateless m
      → ((a : A) → Stateless (k a))
      → Stateless (m >>= k)
  bind-Stateless m k (r, same) f = bind-returned r m k same f

module _ {E : Type 0} (S : Type 0) where
  pub require-Stateless : (b : Bool) (e : E) → Stateless (the (Exec E S (Unit {0})) (require b e))
  unfolding require
  require-Stateless true e = (ok tt, λ s. refl)
  require-Stateless false e = (err e, λ s. refl)

  pub or_throw-Stateless :
      {A : Type 0} (o : Option A) (e : E) → Stateless (the (Exec E S A) (or_throw o e))
  unfolding or_throw
  or_throw-Stateless none e = (err e, λ s. refl)
  or_throw-Stateless (some a) e = (ok a, λ s. refl)
