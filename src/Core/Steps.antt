-- ===== src/Core/Steps.antt =====
-- src/picket/core/errors.py: what a step that passed went through.
use picket_mcp.Prelude.{Text, ◌≡◌, refl, ap, Bool, true, false, Option, none, some}
use picket_mcp.Core.Errors.{ErrorCode, Tried, passed, refused, raised, ◌>>=◌, or_refused, refuse_if}

module _ {ℓ κ} {A : Type ℓ} {B : Type κ} where
  pub >>=-eq-passed :
      (step : Tried A) (next : A → Tried B) {result : B}
      → (step >>= next) ≡ passed result
      → (value : A) × (step ≡ passed value) × (next value ≡ passed result)
  >>=-eq-passed (refused code message) next came = cc
  >>=-eq-passed raised next came = cc
  >>=-eq-passed (passed value) next came = (value, refl, came)

pub or_refused-eq-passed {ℓ} :
    {A : Type ℓ} (code : ErrorCode) (message : Text) (o : Option A) {a : A}
    → or_refused code message o ≡ passed a
    → o ≡ some a
or_refused-eq-passed code message none h = cc
or_refused-eq-passed code message (some b) h = cc

pub refuse_if-eq-passed {ℓ} :
    {A : Type ℓ} (b : Bool) (code : ErrorCode) (message : Text) (rest : Tried A) {a : A}
    → refuse_if b code message rest ≡ passed a
    → (b ≡ false) × (rest ≡ passed a)
refuse_if-eq-passed true code message rest h = cc
refuse_if-eq-passed false code message rest h = (refl, h)

pub passed-injective {ℓ} : {A : Type ℓ} (p q : A) → passed p ≡ passed q → p ≡ q
passed-injective {A} p q h = ap (value_or p) h
  where
    value_or : A → Tried A → A
    value_or d (passed a) = a
    value_or d _ = d
