-- ===== src/Base/Results.antt =====
-- What a call returns that gives a value or the number of an error, which the C code negates.
use Prim.Native.Nat.{ℕ}

pub data Result {ℓ} (A : Type ℓ) : Type ℓ where
  ok : A → Result A
  err : ℕ → Result A
