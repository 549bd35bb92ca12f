-- ===== src/Outcome.antt =====
-- What a Rust function does: it returns, it answers `Err` with a message, or it panics. A panic
-- that reaches an `extern "C"` function aborts the process.
use glu_core.Prelude.{Bytes}

pub data Outcome {ℓ} (A : Type ℓ) : Type ℓ where
  ok : A → Outcome A
  err : Bytes → Outcome A
  panic : Outcome A
