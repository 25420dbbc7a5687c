-- ===== src/Base/Errors.antt =====
-- The outcome of JavaScript code: a value, an exception, or a loop that the model's fuel cut off.

pub data Outcome {ℓ} (A : Type ℓ) : Type ℓ where
  returned : A → Outcome A
  thrown : Outcome A
  out_of_fuel : Outcome A

infixl 5 ◌>>=◌
abbrev pub ◌>>=◌ {ℓ κ} : {A : Type ℓ} {B : Type κ} → Outcome A → (A → Outcome B) → Outcome B
returned a >>= f = f a
thrown >>= f = thrown
out_of_fuel >>= f = out_of_fuel
