-- ===== src/Prelude/Outcome.antt =====
-- A computation that returns a value or throws an error of type `E`.
use mathlib.Core.Path.{◌≡◌, refl, subst}
use mathlib.Core.Bool.{Bool, true, false}
use mathlib.Core.Logic.{◌⊎◌, inl, inr}

pub data Result (E : Type 0) (A : Type 0) : Type 0 where
  ok : A → Result E A
  err : E → Result E A

infixl 5 ◌>>=◌ ◌>>◌
-- Shut, so that the rule for it below is found by its shape.
unfoldable pub ◌>>=◌ : {E A B : Type 0} → Result E A → (A → Result E B) → Result E B
ok a >>= f = f a
err e >>= f = err e

abbrev pub ◌>>◌ : {E B : Type 0} → Result E (Unit {0}) → Result E B → Result E B
m >> k = m >>= λ _. k

-- `if (!condition) throw …`
abbrev pub guard : {E : Type 0} → Bool → E → Result E (Unit {0})
guard true e = ok tt
guard false e = err e

module _ {E A : Type 0} where
  pub Result-cases : (r : Result E A) → ((a : A) × (r ≡ ok a)) ⊎ ((e : E) × (r ≡ err e))
  Result-cases (ok a) = inl (a, refl)
  Result-cases (err e) = inr (e, refl)

  pub ok-inj : {a b : A} → ◌≡◌ {A = Result E A} (ok a) (ok b) → a ≡ b
  ok-inj h = cc

  abbrev pub succeeds : Result E A → Bool
  succeeds (ok a) = true
  succeeds (err e) = false

module _ {E A B : Type 0} where
  -- Inversion of a bind that succeeds.
  pub >>=-eq-ok :
      (m : Result E A) (f : A → Result E B) {b : B}
      → (m >>= f) ≡ ok b
      → (a : A) × (m ≡ ok a) × (f a ≡ ok b)
  unfolding ◌>>=◌
  >>=-eq-ok (ok a) f h = (a, refl, h)
  >>=-eq-ok (err e) f h = cc

module _ {E B : Type 0} where
  pub guard-eq-ok :
      (c : Bool) (e : E) (k : Result E B) {b : B}
      → (guard c e >> k) ≡ ok b
      → (c ≡ true) × (k ≡ ok b)
  unfolding ◌>>=◌
  guard-eq-ok true e k h = (refl, h)
  guard-eq-ok false e k h = cc

module _ {E : Type 0} where
  pub guard-true : (c : Bool) (e : E) {u : Unit {0}} → guard c e ≡ ok u → c ≡ true
  guard-true true e h = refl
  guard-true false e h = cc

-- Whatever the computation returns, has the property.
pub record Ensures {E A : Type 0} (P : A → Type 0) (r : Result E A) : Type 0 where
  pub at : (a : A) → r ≡ ok a → P a

module _ {E A B : Type 0} {P : B → Type 0} where
  pub Ensures-bind :
      (m : Result E A) (f : A → Result E B)
      → ((a : A) → m ≡ ok a → Ensures P (f a))
      → Ensures P (m >>= f)
  unfolding ◌>>=◌
  Ensures-bind (ok a) f h = h a refl
  Ensures-bind (err e) f h = record { at = λ b q. cc }

module _ {E A : Type 0} {P : A → Type 0} where
  pub Ensures-ok : (a : A) → P a → Ensures {E = E} P (ok a)
  Ensures-ok a h = record { at = λ b q. subst P (cc) h }
