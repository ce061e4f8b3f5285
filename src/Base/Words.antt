-- ===== src/Base/Words.antt =====
-- Machine words as native numbers: the wrap of each width.
use Prim.Native.Nat.{ℕ, ◌+◌, ◌-◌, ◌%◌}

abbrev pub u8 : ℕ → ℕ
u8 n = n % 256

abbrev pub u16 : ℕ → ℕ
u16 n = n % 65536

abbrev pub u32 : ℕ → ℕ
u32 n = n % 4294967296

-- a - b in uint16_t and in uint32_t, for operands in range
abbrev pub sub16 : ℕ → ℕ → ℕ
sub16 a b = u16 (a + 65536 - b)

abbrev pub sub32 : ℕ → ℕ → ℕ
sub32 a b = u32 (a + 4294967296 - b)
