-- ===== src/Prelude/Results.antt =====
-- Exceptions as values: a constructor for each place of the program that raises.
use mathlib.Core.Path.{◌≡◌, refl}
use mathlib.Core.Bool.{Bool, true, false}

pub data Result {ℓ κ} (E : Type ℓ) (A : Type κ) : Type (ℓ ⊔ κ) where
  ok : A → Result E A
  err : E → Result E A

-- `if not test: raise error`
abbrev pub require {ℓ} : {E : Type ℓ} → Bool → E → Result E (Unit {0})
require test error = elim test [ true ↦ ok tt | false ↦ err error ]

module _ {ℓ κ μ} {E : Type ℓ} {A : Type κ} {B : Type μ} where
  infixl 5 ◌>>=◌ ◌>>◌
  abbrev pub ◌>>=◌ : Result E A → (A → Result E B) → Result E B
  result >>= continue = elim result [ err e ↦ err e | ok value ↦ continue value ]

  -- What follows the `try` runs only if its value came back.
  pub >>=-eq-ok :
      (result : Result E A) (continue : A → Result E B) {last : B}
      → (result >>= continue) ≡ ok last
      → (value : A) × (result ≡ ok value) × (continue value ≡ ok last)
  >>=-eq-ok (err e) continue raised = absurd (cc)
  >>=-eq-ok (ok value) continue returned = (value, refl, returned)

  abbrev pub ◌>>◌ : Result E A → Result E B → Result E B
  result >> more = result >>= λ _. more

pub require-ok {ℓ} :
    {E : Type ℓ} (test : Bool) (error : E) → require test error ≡ ok tt → test ≡ true
require-ok true error passed = refl
require-ok false error passed = cc

pub ok_injective {ℓ κ} :
    {E : Type ℓ} {A : Type κ} {a b : A} → ◌≡◌ {A = Result E A} (ok a) (ok b) → a ≡ b
ok_injective h = cc
