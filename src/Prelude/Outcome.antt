-- ===== src/Prelude/Outcome.antt =====
-- A value or an error: Go's `(T, error)` where the value of a failed call is not used.
pub data Result {ℓ} (E A : Type ℓ) : Type ℓ where
  ok : A → Result E A
  err : E → Result E A
