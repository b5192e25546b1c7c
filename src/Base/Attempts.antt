-- ===== src/Base/Attempts.antt =====
-- The outcome of code that may throw.
pub data Attempt {ℓ} (A : Type ℓ) : Type ℓ where
  returned : A → Attempt A
  thrown : Attempt A
