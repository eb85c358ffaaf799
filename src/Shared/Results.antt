-- ===== src/Shared/Results.antt =====
-- The outcome of a call that may throw: the error is its message.
use Prim.Native.String.{String}

pub data Result {ℓ} (A : Type ℓ) : Type ℓ where
  ok : A → Result A
  err : String → Result A
