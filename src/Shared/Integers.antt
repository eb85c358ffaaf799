-- ===== src/Shared/Integers.antt =====
-- Whole numbers with a sign, over the native numbers: `negsuc n` is `-(n + 1)`.
use Prim.Native.Nat.{ℕ, suc, ◌+◌, ◌-◌}
use intellibiz.Shared.Tests.{ltb, if◌then◌else◌}

pub data ℤ : Type 0 where
  pos negsuc : ℕ → ℤ

-- a - b
abbrev pub difference : ℕ → ℕ → ℤ
difference a b = if ltb a b then negsuc (b - a - 1) else pos (a - b)

-- z + n
abbrev pub plus : ℤ → ℕ → ℤ
plus (pos m) n = pos (m + n)
plus (negsuc m) n = difference n (suc m)
