-- ===== src/Prelude/Signed.antt =====
-- C's signed results (`int`, `ssize_t`, `off_t`), and their conversion to `size_t`.
use Prim.Native.Nat.{ℕ, zero, suc, ◌-◌}
use mathlib.Core.Bool.{Bool, true, false}
use logdb.Prelude.Tests.{ltb}

-- `negsuc n` is -(n + 1).
pub data ℤ : Type 0 where
  pos : ℕ → ℤ
  negsuc : ℕ → ℤ

-- The code -1 of a failed call.
abbrev pub failed : ℤ
failed = negsuc 0

abbrev pub succeeded : ℤ
succeeded = pos 0

-- `z > 0`, `z == 0`, `z == -1`, `z != 0`
abbrev pub is_positive : ℤ → Bool
is_positive (pos n) = ltb 0 n
is_positive (negsuc n) = false

abbrev pub is_zero : ℤ → Bool
is_zero (pos zero) = true
is_zero (pos (suc n)) = false
is_zero (negsuc n) = false

abbrev pub is_failed : ℤ → Bool
is_failed (negsuc zero) = true
is_failed (negsuc (suc n)) = false
is_failed (pos n) = false

-- `(size_t) z`, with a `size_t` of 64 bits.
abbrev pub to_size : ℤ → ℕ
to_size (pos n) = n
to_size (negsuc n) = 18446744073709551615 - n
