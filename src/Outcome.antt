-- ===== src/Outcome.antt =====
-- A call that returns, or that throws an `Error` with its message.
use unit_redis_ness.Prelude.{String}

pub data Outcome {ℓ} (A : Type ℓ) : Type ℓ where
  returns : A → Outcome A
  throws : String → Outcome A
