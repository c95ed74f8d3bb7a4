-- ===== src/Base/Values.antt =====
-- Integers, and the values that the source passes about as `any`.
use Prim.Native.Nat.{ℕ}
use Prim.Native.String.{String}
use mathlib.Core.Bool.{Bool}

-- `negsuc n` is -(n + 1).
pub data ℤ : Type 0 where
  pos : ℕ → ℤ
  negsuc : ℕ → ℤ

-- A scalar held in an `any`: `nil`, a bool, an int, a string.
pub data Value : Type 0 where
  null : Value
  bool : Bool → Value
  int : ℤ → Value
  str : String → Value
