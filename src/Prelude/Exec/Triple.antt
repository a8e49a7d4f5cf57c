-- ===== src/Prelude/Exec/Triple.antt =====
-- What a method leaves that starts from a property of the state: one property of the value and the
-- state where it returns, another of the state where it throws.
use perseverance.Prelude.Exec.{
  Result, ok, err, Exec, pure, gets, modify, or_throw, require, continue, ◌>>=◌,
}
use mathlib.Core.Path.{◌≡◌, refl, subst}
use mathlib.Core.Bool.{Bool, true, false}
use mathlib.Core.Option.{Option, none, some}
use perseverance.Prelude.Tests.{if◌then◌else◌}

abbrev pub Outcome : {E S A : Type 0} → (A → S → Type 0) → (S → Type 0) → Result E A → S → Type 0
Outcome Q R (ok a) s = Q a s
Outcome Q R (err e) s = R s

pub record Triple {E S A : Type 0} (P : S → Type 0) (m : Exec E S A) (Q : A → S → Type 0)
    (R : S → Type 0) : Type 0 where
  pub at : (s : S) → P s → Outcome Q R (m s).0 (m s).1

continue-Outcome :
    {E S A B : Type 0} (R : S → Type 0) (Q : A → S → Type 0) (Q' : B → S → Type 0) (r : Result E A)
    (k : A → Exec E S B) (s : S)
    → ((a : A) → Triple (Q a) (k a) Q' R)
    → Outcome Q R r s
    → Outcome Q' R (continue r k s).0 (continue r k s).1
continue-Outcome R Q Q' (ok a) k s f q = (f a).at s q
continue-Outcome R Q Q' (err e) k s f q = q

Outcome_map :
    {E S A : Type 0} (Q Q' : A → S → Type 0) (R : S → Type 0)
    → ((a : A) (s : S) → Q a s → Q' a s)
    → (r : Result E A) (s : S) → Outcome Q R r s
    → Outcome Q' R r s
Outcome_map Q Q' R h (ok a) s q = h a s q
Outcome_map Q Q' R h (err e) s q = q

Outcome_both :
    {E S A : Type 0} (Q Q' : A → S → Type 0) (R R' : S → Type 0) (r : Result E A) (s : S)
    → Outcome Q R r s
    → Outcome Q' R' r s
    → Outcome (λ a s. Q a s × Q' a s) (λ s. R s × R' s) r s
Outcome_both Q Q' R R' (ok a) s p q = (p, q)
Outcome_both Q Q' R R' (err e) s p q = (p, q)

Outcome_relax :
    {E S A : Type 0} (Q : A → S → Type 0) (R R' : S → Type 0)
    → ((s : S) → R s → R' s)
    → (r : Result E A) (s : S) → Outcome Q R r s
    → Outcome Q R' r s
Outcome_relax Q R R' h (ok a) s q = q
Outcome_relax Q R R' h (err e) s q = h s q

pub ok_injective : {E A : Type 0} {a b : A} → ◌≡◌ {A = Result E A} (ok a) (ok b) → a ≡ b
ok_injective h = cc

-- What holds where a call returned.
pub returned :
    {E S A : Type 0} (Q : A → S → Type 0) (R : S → Type 0) (m : Result E A × S) (a : A)
    → Outcome Q R m.0 m.1
    → m.0 ≡ ok a
    → Q a m.1
returned Q R (ok x, s) a o e = subst (λ y. Q y s) (ok_injective e) o
returned Q R (err x, s) a o e = cc

pub same_outcome :
    {E S A : Type 0} (P : S → Type 0) (r : Result E A) (s : S) → Outcome (λ _. P) P r s → P s
same_outcome P (ok a) s p = p
same_outcome P (err e) s p = p

module _ {E S : Type 0} {P R : S → Type 0} where
  pub bind-Triple :
      {A B : Type 0} {Q : A → S → Type 0} {Q' : B → S → Type 0} {m : Exec E S A}
      {k : A → Exec E S B}
      → Triple P m Q R
      → ((a : A) → Triple (Q a) (k a) Q' R)
      → Triple P (m >>= k) Q' R
  unfolding ◌>>=◌
  bind-Triple {Q = Q} {Q' = Q'} {m} {k} f g = record {
    at = λ s p. continue-Outcome R Q Q' (m s).0 k (m s).1 g (f.at s p);
  }

  require_at :
      (b : Bool) (e : E)
      → ((s : S) → P s → R s)
      → (s : S) → P s
      → Outcome (λ _ s. P s × (b ≡ true)) R (require b e s).0 (require b e s).1
  unfolding require
  require_at true e f s p = (p, refl)
  require_at false e f s p = f s p

  pub require-Triple :
      (b : Bool) (e : E)
      → ((s : S) → P s → R s)
      → Triple P (require b e) (λ _ s. P s × (b ≡ true)) R
  require-Triple b e f = record { at = require_at b e f }

  or_throw_at :
      {A : Type 0} (o : Option A) (e : E)
      → ((s : S) → P s → o ≡ none → R s)
      → (s : S) → P s
      → Outcome (λ a s. P s × (o ≡ some a)) R (or_throw o e s).0 (or_throw o e s).1
  unfolding or_throw
  or_throw_at none e f s p = f s p refl
  or_throw_at (some a) e f s p = (p, refl)

  pub or_throw-Triple :
      {A : Type 0} (o : Option A) (e : E)
      → ((s : S) → P s → o ≡ none → R s)
      → Triple P (or_throw o e) (λ a s. P s × (o ≡ some a)) R
  or_throw-Triple o e f = record { at = or_throw_at o e f }

  pub gets-Triple : {A : Type 0} (f : S → A) → Triple {E = E} P (gets f) (λ a s. P s × (a ≡ f s)) R
  unfolding gets
  gets-Triple f = record { at = λ s p. (p, refl) }

  pub modify-Triple :
      {Q : S → Type 0} (f : S → S)
      → ((s : S) → P s → Q (f s))
      → Triple {E = E} P (modify f) (λ _. Q) R
  unfolding modify
  modify-Triple f h = record { at = h }

  pub pure-Triple :
      {A : Type 0} {Q : A → S → Type 0} (a : A)
      → ((s : S) → P s → Q a s)
      → Triple {E = E} P (pure a) Q R
  unfolding pure
  pure-Triple a h = record { at = h }

  pub weaken-Triple :
      {A : Type 0} {P' : S → Type 0} {Q : A → S → Type 0} {m : Exec E S A}
      → ((s : S) → P s → P' s)
      → Triple P' m Q R
      → Triple P m Q R
  weaken-Triple h f = record { at = λ s p. f.at s (h s p) }

  pub strengthen-Triple :
      {A : Type 0} {Q Q' : A → S → Type 0} {m : Exec E S A}
      → ((a : A) (s : S) → Q a s → Q' a s)
      → Triple P m Q R
      → Triple P m Q' R
  strengthen-Triple {Q = Q} {Q'} {m} h f = record {
    at = λ s p. Outcome_map Q Q' R h (m s).0 (m s).1 (f.at s p);
  }

  pub if-Triple :
      {A : Type 0} {Q : A → S → Type 0} {m k : Exec E S A} (b : Bool)
      → Triple P m Q R
      → Triple P k Q R
      → Triple P (if b then m else k) Q R
  if-Triple true f g = f
  if-Triple false f g = g

  pub cases-Triple :
      {A : Type 0} {Q : A → S → Type 0} {m k : Exec E S A} (b : Bool)
      → (b ≡ true → Triple P m Q R)
      → (b ≡ false → Triple P k Q R)
      → Triple P (if b then m else k) Q R
  cases-Triple true f g = f refl
  cases-Triple false f g = g refl

  pub elim-Triple :
      {A B : Type 0} {Q : B → S → Type 0} (o : Option A) {m : Exec E S B} {k : A → Exec E S B}
      → (o ≡ none → Triple P m Q R)
      → ((a : A) → o ≡ some a → Triple P (k a) Q R)
      → Triple P (elim o [ none ↦ m | some a ↦ k a ]) Q R
  elim-Triple none f g = f refl
  elim-Triple (some a) f g = g a refl

  -- What is known of other values than the state.
  pub fact-Triple :
      {X A : Type 0} {Q : A → S → Type 0} {m : Exec E S A}
      → (X → Triple P m Q R)
      → Triple (λ s. P s × X) m Q R
  fact-Triple f = record { at = λ s (p, x). (f x).at s p }

  -- Two properties at once.
  pub both-Triple :
      {A : Type 0} {Q Q' : A → S → Type 0} {P' R' : S → Type 0} {m : Exec E S A}
      → Triple P m Q R
      → Triple P' m Q' R'
      → Triple (λ s. P s × P' s) m (λ a s. Q a s × Q' a s) (λ s. R s × R' s)
  both-Triple {Q = Q} {Q'} {R' = R'} {m} f g = record {
    at = λ s (p, p'). Outcome_both Q Q' R R' (m s).0 (m s).1 (f.at s p) (g.at s p');
  }

  pub relax-Triple :
      {A : Type 0} {Q : A → S → Type 0} {R' : S → Type 0} {m : Exec E S A}
      → ((s : S) → R s → R' s)
      → Triple P m Q R
      → Triple P m Q R'
  relax-Triple {Q = Q} {R'} {m} h f = record {
    at = λ s p. Outcome_relax Q R R' h (m s).0 (m s).1 (f.at s p);
  }

sure_require_at :
    {E S : Type 0} (P R : S → Type 0) (b : Bool) (e : E) (s : S)
    → b ≡ true
    → P s
    → Outcome (λ _. P) R (require b e s).0 (require b e s).1
unfolding require
sure_require_at P R true e s h p = p
sure_require_at P R false e s h p = cc

-- The same, where what is read or tested does not matter.
module _ {E S : Type 0} {P R : S → Type 0} where
  pub skip_gets : {A : Type 0} (f : S → A) → Triple {E = E} P (gets f) (λ _. P) R
  skip_gets f = strengthen-Triple (λ _ _ q. q.0) (gets-Triple f)

  pub skip_require : (b : Bool) (e : E) → ((s : S) → P s → R s) → Triple P (require b e) (λ _. P) R
  skip_require b e f = strengthen-Triple (λ _ _ q. q.0) (require-Triple b e f)

  pub skip_or_throw :
      {A : Type 0} (o : Option A) (e : E)
      → ((s : S) → P s → R s)
      → Triple P (or_throw o e) (λ _. P) R
  skip_or_throw o e f = strengthen-Triple (λ _ _ q. q.0) (or_throw-Triple o e (λ s p _. f s p))

  -- A test that is known to pass.
  pub sure_require :
      (b : Bool) (e : E) → ((s : S) → P s → b ≡ true) → Triple P (require b e) (λ _. P) R
  sure_require b e f = record { at = λ s p. sure_require_at P R b e s (f s p) p }
