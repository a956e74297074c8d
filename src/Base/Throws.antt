-- ===== src/Base/Throws.antt =====
-- What a call that may throw gives back. A transaction that throws is rolled back, so the state
-- comes back only beside a result.
use mathlib.Core.Path.{◌≡◌, refl}
use mathlib.Core.Logic.{◌⊎◌, inl, inr}

-- `thrown` carries the error that the source builds.
pub data Outcome {ℓ κ} (E : Type κ) (A : Type ℓ) : Type (ℓ ⊔ κ) where
  returned : A → Outcome E A
  thrown : E → Outcome E A

module _ {ℓ κ} {E : Type κ} {A B : Type ℓ} where
  infixl 5 ◌>>=◌
  abbrev pub ◌>>=◌ : Outcome E A → (A → Outcome E B) → Outcome E B
  returned a >>= f = f a
  thrown e >>= f = thrown e

  -- A chain that returns has returned at each step.
  pub >>=-eq-returned :
      (m : Outcome E A) (f : A → Outcome E B) {b : B}
      → (m >>= f) ≡ returned b
      → (a : A) × (m ≡ returned a) × (f a ≡ returned b)
  >>=-eq-returned (returned a) f h = (a, refl, h)
  >>=-eq-returned (thrown e) f h = cc

module _ {E A : Type 0} where
  pub Outcome-cases : (o : Outcome E A) → ((a : A) × (o ≡ returned a)) ⊎ ((e : E) × (o ≡ thrown e))
  Outcome-cases (returned a) = inl (a, refl)
  Outcome-cases (thrown e) = inr (e, refl)

  pub returned-inj : {a b : A} → ◌≡◌ {A = Outcome E A} (returned a) (returned b) → a ≡ b
  returned-inj h = cc
