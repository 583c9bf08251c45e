-- ===== src/Outcome.antt =====
-- What a C++ call can do besides return: throw an exception, or leave the defined language.

-- The exceptions of the code: `std::runtime_error` and the string literals it throws.
pub data Fault : Type 0 where
  no_such_log : Fault
  could_not_apply : Fault
  wrong_index : Fault

pub data Outcome {ℓ} (A : Type ℓ) : Type ℓ where
  ok : A → Outcome A
  throws : Fault → Outcome A
  undefined : Outcome A
