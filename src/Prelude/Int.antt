-- ===== src/Prelude/Int.antt =====
-- Signed integers over the native numbers, under the library's names, and two's complement.
use Prim.Native.Nat.{ℕ, ◌+◌, ◌-◌, ◌^◌}
use Prim.Native.String.{String, ◌++◌ as ◌<>◌}
use mathlib.Core.Bool.{Bool}
use soroban_tools.Prelude.Tests.{ltb, if◌then◌else◌}
use soroban_tools.Prelude.Texts.{decimal}

-- `negsuc n` is -(n + 1).
pub data ℤ : Type 0 where
  pos : ℕ → ℤ
  negsuc : ℕ → ℤ

-- Whether the value fits a signed integer of `w + 1` bits.
abbrev pub fits_signed : ℕ → ℤ → Bool
fits_signed w (pos n) = ltb n (2 ^ w)
fits_signed w (negsuc n) = ltb n (2 ^ w)

-- The bit pattern of a signed integer of `w` bits, and back.
abbrev pub to_pattern : ℕ → ℤ → ℕ
to_pattern w (pos n) = n
to_pattern w (negsuc n) = 2 ^ w - 1 - n

abbrev pub of_pattern : ℕ → ℕ → ℤ
of_pattern w p = if ltb p (2 ^ (w - 1)) then pos p else negsuc (2 ^ w - 1 - p)

-- `to_string` of a signed integer.
unfoldable pub decimal_ℤ : ℤ → String
unfolding decimal
decimal_ℤ (pos n) = decimal n
decimal_ℤ (negsuc n) = "-" <> decimal (n + 1)
