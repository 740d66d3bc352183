-- ===== src/Base/Int.antt =====
-- Go's int64: a signed integer, and the value that a product leaves in 64 bits.
use Prim.Native.Nat.{ℕ, suc, ◌-◌, ◌*◌, ◌%◌, ◌^◌}
use mathlib.Core.Bool.{Bool, true, false}
use repo_plane.Base.Tests.{ltb, ◌==◌, ℕ_eq, if◌then◌else◌}

-- `negsuc n` is -(n + 1).
pub data ℤ : Type 0 where
  pos : ℕ → ℤ
  negsuc : ℕ → ℤ

-- The int64 with the 64-bit pattern `v`.
abbrev pub of_bits : ℕ → ℤ
of_bits v = if ltb v (2 ^ 63) then pos v else negsuc (2 ^ 64 - v - 1)

-- `x * k` in int64, for a constant k.
abbrev pub times : ℤ → ℕ → ℤ
times (pos n) k = of_bits (n * k % 2 ^ 64)
times (negsuc n) k = of_bits ((2 ^ 64 - suc n * k % 2 ^ 64) % 2 ^ 64)

abbrev pub is_negative : ℤ → Bool
is_negative (pos n) = false
is_negative (negsuc n) = true

abbrev pub is_zero : ℤ → Bool
is_zero (pos n) = ltb n 1
is_zero (negsuc n) = false

-- a > n
abbrev pub exceeds : ℤ → ℕ → Bool
exceeds (pos m) n = ltb n m
exceeds (negsuc m) n = false

-- a == b
abbrev pub same_int : ℤ → ℤ → Bool
same_int (pos m) (pos n) = m == n
same_int (negsuc m) (negsuc n) = m == n
same_int _ _ = false
