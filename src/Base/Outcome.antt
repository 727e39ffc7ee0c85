-- ===== src/Base/Outcome.antt =====
-- Results of fallible operations: a value, or the reason it failed.
use mathlib.Core.Option.{Option, none, some}
use mathlib.Core.Logic.{◌⊎◌, inl, inr}
use mathlib.Core.Path.{◌≡◌, refl}

pub data Result {ℓ κ} (E : Type κ) (A : Type ℓ) : Type (ℓ ⊔ κ) where
  ok : A → Result E A
  err : E → Result E A

module _ {ε} {E : Type ε} where
  infixl 5 ◌>>=◌ ◌>>◌
  abbrev pub ◌>>=◌ {ℓ κ} : {A : Type ℓ} {B : Type κ} → Result E A → (A → Result E B) → Result E B
  ok a >>= f = f a
  err e >>= f = err e

  abbrev pub ◌>>◌ {ℓ} : {B : Type ℓ} → Result E (Unit {0}) → Result E B → Result E B
  m >> k = m >>= λ _. k

  abbrev pub or_fail {ℓ} : {A : Type ℓ} → Option A → E → Result E A
  or_fail none e = err e
  or_fail (some a) e = ok a

  pub Result-cases {ℓ} :
      {A : Type ℓ} (r : Result E A) → ((a : A) × (r ≡ ok a)) ⊎ ((e : E) × (r ≡ err e))
  Result-cases (ok a) = inl (a, refl)
  Result-cases (err e) = inr (e, refl)

  pub err_inj {ℓ} : {A : Type ℓ} {a b : E} → ◌≡◌ {A = Result E A} (err a) (err b) → a ≡ b
  err_inj e = cc

  pub ok-ne-err {ℓ} : {A : Type ℓ} {a : A} {e : E} → ok a ≡ err e → ⊥
  ok-ne-err h = cc

  pub ok_inj {ℓ} : {A : Type ℓ} {a b : A} → ◌≡◌ {A = Result E A} (ok a) (ok b) → a ≡ b
  ok_inj e = cc
