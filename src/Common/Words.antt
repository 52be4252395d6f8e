-- ===== src/Common/Words.antt =====
-- Machine words: the values of `uint8_t`, `uint16_t` and `uint32_t` are natural numbers, and each
-- conversion to such a type is a remainder.
use Prim.Native.Nat.{ℕ, ◌+◌, ◌-◌, ◌*◌, ◌/◌, ◌%◌, ◌^◌}

-- Shifts before a conversion cuts bits off.
infixl 75 ◌<<<◌ ◌>>>◌
abbrev pub ◌<<<◌ : ℕ → ℕ → ℕ
x <<< k = x * 2 ^ k

abbrev pub ◌>>>◌ : ℕ → ℕ → ℕ
x >>> k = x / 2 ^ k

-- The conversions to the three types.
abbrev pub u32 : ℕ → ℕ
u32 value = value % 4294967296

abbrev pub u16 : ℕ → ℕ
u16 value = value % 65536

abbrev pub u8 : ℕ → ℕ
u8 value = value % 256

-- Subtraction in 8 and in 16 bits; `-` on natural numbers stops at 0.
abbrev pub sub8 : ℕ → ℕ → ℕ
sub8 a b = (a + 256 - b) % 256

abbrev pub sub16 : ℕ → ℕ → ℕ
sub16 a b = (a + 65536 - b) % 65536

-- `~x` as a `uint8_t`.
abbrev pub not8 : ℕ → ℕ
not8 x = 255 - x

-- A byte as a signed number, with 128 added; `excess16` likewise.
abbrev pub excess8 : ℕ → ℕ
excess8 x = (x + 128) % 256

abbrev pub excess16 : ℕ → ℕ
excess16 x = (x + 32768) % 65536
