-- ===== src/Prelude/Words.antt =====
-- Machine words: the conversions to `unsigned short` and `unsigned char`, the wrap-around of a
-- 32-bit `int`, and the sentinel `MISSING_INT` of dballe/fwd.h.
use Prim.Native.Nat.{ℕ, ◌-◌, ◌%◌}
use mathlib.Core.Bool.{Bool}
use dballe.Prelude.Tests.{ltb, if◌then◌else◌}
use dballe.Prelude.Int.{ℤ, pos, negsuc, ◌-ℤ◌, ◌≤ℤ◌, eqb_ℤ}

-- static constexpr int MISSING_INT = INT_MAX
abbrev pub missing_int : ℤ
missing_int = pos 2147483647

abbrev pub is_missing_int : ℤ → Bool
is_missing_int z = eqb_ℤ z missing_int

-- (unsigned short)z
abbrev pub to_u16 : ℤ → ℕ
to_u16 (pos n) = n % 65536
to_u16 (negsuc n) = 65535 - n % 65536

-- (unsigned char)z
abbrev pub to_u8 : ℤ → ℕ
to_u8 (pos n) = n % 256
to_u8 (negsuc n) = 255 - n % 256

-- The residue of an integer modulo 2 ^ 32.
abbrev pub to_u32 : ℤ → ℕ
to_u32 (pos n) = n % 4294967296
to_u32 (negsuc n) = 4294967295 - n % 4294967296

-- The value that a 32-bit two's complement `int` holds after an operation with the result `z`.
abbrev pub wrap32 : ℤ → ℤ
wrap32 z = let r = to_u32 z in if ltb r 2147483648 then pos r else negsuc (4294967295 - r)

-- `a - b` on `int`, with the wrap-around of two's complement.
unfoldable pub sub32 : ℤ → ℤ → ℤ
unfolding ◌-ℤ◌
sub32 a b = wrap32 (a -ℤ b)

-- The range of `int`.
pub record IsInt (z : ℤ) : Type 0 where
  pub above : negsuc 2147483647 ≤ℤ z
  pub below : z ≤ℤ pos 2147483647
