-- ===== src/Base/Int.antt =====
-- Signed integers over the native numbers, as far as the driver computes with them.
use Prim.Native.Nat.{ℕ, suc, ◌+◌, ◌-◌, ◌/◌, ◌%◌}
use cr_lte_modem.Base.Tests.{ltb, if◌then◌else◌}

-- `negsuc n` is -(n + 1).
pub data ℤ : Type 0 where
  pos : ℕ → ℤ
  negsuc : ℕ → ℤ

-- the value of an `int8_t` by its bit pattern
abbrev pub int8 : ℕ → ℤ
int8 p = if ltb p 128 then pos p else negsuc (255 - p)

-- a + n
abbrev pub add_ℕ : ℤ → ℕ → ℤ
add_ℕ (pos a) n = pos (a + n)
add_ℕ (negsuc a) n = if ltb a n then pos (n - a - 1) else negsuc (a - n)

-- the division of C, which goes towards 0
abbrev pub quot : ℤ → ℕ → ℤ
quot (pos a) d = pos (a / d)
quot (negsuc a) d = let q = suc a / d in if ltb 0 q then negsuc (q - 1) else pos 0

-- the conversion to `uint8_t`
abbrev pub int_u8 : ℤ → ℕ
int_u8 (pos a) = a % 256
int_u8 (negsuc a) = 255 - a % 256
