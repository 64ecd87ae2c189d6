-- ===== src/Prelude/Outcomes.antt =====
-- What a C++ call can do: return, throw, or have undefined behaviour (such as a subscript past the
-- end of a vector). The texts of the exceptions are left out.

pub data Exception : Type 0 where
  illegal_argument length_error null_pointer out_of_range : Exception

pub data Outcome {ℓ} (A : Type ℓ) : Type ℓ where
  returned : A → Outcome A
  thrown : Exception → Outcome A
  undefined : Outcome A

infixl 5 ◌>>=◌
abbrev pub ◌>>=◌ {ℓ κ} : {A : Type ℓ} {B : Type κ} → Outcome A → (A → Outcome B) → Outcome B
returned a >>= f = f a
thrown e >>= f = thrown e
undefined >>= f = undefined
