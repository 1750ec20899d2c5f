-- ===== src/Common/Int.antt =====
-- Signed integers. `negsuc n` is -(n + 1).
use Prim.Native.Nat.{ℕ, zero, suc, ◌-◌, ◌/◌, ◌%◌, ◌^◌}
use Prim.Native.String.{String, ◌++◌}
use mathlib.Core.Path.{◌≡◌, ap}
use mathlib.Core.Bool.{Bool, true, false}
use native.Mathlib.Omega.{arith}
use projectbeskar_virtrigaud.Common.Tests.{ltb, ◌==◌, if◌then◌else◌}
use projectbeskar_virtrigaud.Common.Texts.{numeral}

pub data ℤ : Type 0 where
  pos : ℕ → ℤ
  negsuc : ℕ → ℤ

-- `a > b`, for `b` not negative.
abbrev pub exceeds : ℤ → ℕ → Bool
exceeds (pos n) b = ltb b n
exceeds (negsuc n) b = false

infix 50 ◌=z◌
abbrev pub ◌=z◌ : ℤ → ℤ → Bool
pos m =z pos n = m == n
negsuc m =z negsuc n = m == n
pos m =z negsuc n = false
negsuc m =z pos n = false

pub =z_refl : (a : ℤ) → (a =z a) ≡ true
=z_refl (pos n) = ground arith
=z_refl (negsuc n) = ground arith

-- `-n`.
abbrev pub negated : ℕ → ℤ
negated zero = pos 0
negated (suc n) = negsuc n

-- Division by a positive number, which Go rounds towards zero.
abbrev pub quot : ℤ → ℕ → ℤ
quot (pos n) d = pos (n / d)
quot (negsuc n) d = negated (suc n / d)

-- `int32(a)` of a 64-bit integer: its lower 32 bits, as a signed number.
abbrev from_bits : ℕ → ℤ
from_bits m = if ltb m (2 ^ 31) then pos m else negsuc (2 ^ 32 - 1 - m)

abbrev pub to_int32 : ℤ → ℤ
to_int32 (pos n) = from_bits (n % 2 ^ 32)
to_int32 (negsuc n) = from_bits (2 ^ 32 - 1 - n % 2 ^ 32)

-- `%d`.
abbrev pub decimal : ℤ → String
decimal (pos n) = numeral n
decimal (negsuc n) = "-" ++ numeral (suc n)

pub =z→≡ : (a b : ℤ) → (a =z b) ≡ true → a ≡ b
=z→≡ (pos m) (pos n) h = ap pos (ground arith)
=z→≡ (negsuc m) (negsuc n) h = ap negsuc (ground arith)
=z→≡ (pos m) (negsuc n) h = ground arith
=z→≡ (negsuc m) (pos n) h = ground arith
