-- ===== src/Base/Int.antt =====
-- Signed integers, for Go's `int` where a value may be negative.
use Prim.Native.Nat.{ℕ, ◌-◌}
use sokratos.Base.Tests.{if◌then◌else◌, leb}

-- `negsuc n` is -(n + 1).
pub data ℤ : Type 0 where
  pos : ℕ → ℤ
  negsuc : ℕ → ℤ

-- a - b, as an integer.
abbrev pub sub_ℕ : ℕ → ℕ → ℤ
sub_ℕ a b = if leb b a then pos (a - b) else negsuc (b - a - 1)

-- The default that a constructor takes where its argument is not positive: `if n <= 0 { n = d }`.
abbrev pub positive_or : ℕ → ℤ → ℕ
positive_or d (pos n) = if leb n 0 then d else n
positive_or d (negsuc n) = d
