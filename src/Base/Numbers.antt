-- ===== src/Base/Numbers.antt =====
-- JavaScript numbers, as far as the program uses them: whole numbers, with the ranges that the
-- protobuf types ask for. `negsuc n` is -(n + 1).
use Prim.Native.Nat.{ℕ, suc, ◌^◌}
use mathlib.Core.Bool.{Bool, true, false}
use mathlib.Core.Path.{◌≡◌}
use native.Mathlib.Omega.{arith}
use im_single.Base.Tests.{ltb, ◌==◌}

pub data ℤ : Type 0 where
  pos : ℕ → ℤ
  negsuc : ℕ → ℤ

-- `f === 0`
abbrev pub is_zero : ℤ → Bool
is_zero (pos n) = n == 0
is_zero (negsuc n) = false

-- The values of a 32-bit signed integer.
abbrev pub in_int32 : ℤ → Bool
in_int32 (pos n) = ltb n (2 ^ 31)
in_int32 (negsuc n) = ltb n (2 ^ 31)

-- The whole numbers that a double holds exactly with their neighbours: `Number.isSafeInteger`.
abbrev pub in_safe : ℤ → Bool
in_safe (pos n) = ltb n (2 ^ 53)
in_safe (negsuc n) = ltb (suc n) (2 ^ 53)

pub eq_of_is_zero : (v : ℤ) → is_zero v ≡ true → v ≡ pos 0
eq_of_is_zero v h = ground arith
