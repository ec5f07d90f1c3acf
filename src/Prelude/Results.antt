-- ===== src/Prelude/Results.antt =====
-- Code that may raise: a value, or the error that was raised.
use mathlib.Core.Path.{◌≡◌, refl}
use mathlib.Core.Bool.{Bool, true, false}
use mathlib.Core.Option.{Option, none, some}

pub data Result {ℓ} (E : Type 0) (A : Type ℓ) : Type ℓ where
  ok : A → Result E A
  err : E → Result E A

module _ {E : Type 0} where
  abbrev pub or_raise {ℓ} : {A : Type ℓ} → Option A → E → Result E A
  or_raise none error = err error
  or_raise (some value) error = ok value

  abbrev pub raise_if : Bool → E → Result E (Unit {0})
  raise_if raises error = elim raises [ true ↦ err error | false ↦ ok tt ]

  infixl 5 ◌>>=◌
  abbrev pub ◌>>=◌ {ℓ κ} : {A : Type ℓ} {B : Type κ} → Result E A → (A → Result E B) → Result E B
  first >>= next = elim first [ err error ↦ err error | ok value ↦ next value ]

  infixl 5 ◌>>◌
  abbrev pub ◌>>◌ {κ} : {B : Type κ} → Result E (Unit {0}) → Result E B → Result E B
  first >> next = elim first [ err error ↦ err error | ok value ↦ next ]

  pub or_raise-eq-ok {ℓ} :
      {A : Type ℓ} (o : Option A) (e : E) (a : A) → or_raise o e ≡ ok a → o ≡ some a
  or_raise-eq-ok none e a h = cc
  or_raise-eq-ok (some b) e a h = cc

  -- Inversion of a successful bind.
  pub ok-injective {ℓ} : {A : Type ℓ} {a b : A} → ◌≡◌ {A = Result E A} (ok a) (ok b) → a ≡ b
  ok-injective h = cc

  pub >>=-eq-ok {ℓ κ} :
      {A : Type ℓ} {B : Type κ} (first : Result E A) (next : A → Result E B) {final : B}
      → (first >>= next) ≡ ok final
      → (value : A) × (first ≡ ok value) × (next value ≡ ok final)
  >>=-eq-ok (err error) next run = cc
  >>=-eq-ok (ok value) next run = (value, refl, run)
