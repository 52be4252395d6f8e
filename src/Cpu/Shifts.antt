-- ===== src/Cpu/Shifts.antt =====
-- The rotations, the shifts and the encoding of the status register (emulator/cpu6301.{h,cc}).
use hd6301_thing.Common.{
  ℕ, ◌+◌, ◌*◌, ◌/◌, ◌%◌, ◌<◌, true, ◌&&◌, ◌≡◌, refl, arith, leb, ◌==◌, bit, bit_or, bit_and-one,
  bit_and-128, bit_or_concat, holds_below, holds_below→at, ==_iff,
}
use hd6301_thing.Cpu.Alu.{StatusRegister, from_integer, as_integer, rol, ror, asl, lsr, asr}

-- The flags survive `as_integer` and the constructor of `StatusRegister`.
pub from_integer-as_integer : (s : StatusRegister) → from_integer (as_integer s) ≡ s
unfolding from_integer as_integer
from_integer-as_integer s = ground arith

as_integer_table : holds_below (λ r. as_integer (from_integer r) == r % 64 + 192) 256 ≡ true
unfolding holds_below as_integer from_integer
as_integer_table = refl

-- A byte that goes through the status register keeps its six flag bits and has both high bits set.
pub as_integer-from_integer : (r : ℕ) → r < 256 → as_integer (from_integer r) ≡ r % 64 + 192
as_integer-from_integer r h = (==_iff _ _).0 (holds_below→at _ 256 r h as_integer_table)

or_128_table : holds_below (λ y. (bit_or y 128 == y + 128) && (bit_or y 0 == y)) 128 ≡ true
unfolding holds_below
or_128_table = refl

or_128 : (y : ℕ) → y < 128 → (bit_or y 128 ≡ y + 128) × (bit_or y 0 ≡ y)
or_128 y h = ground (arith, holds_below→at _ 128 y h or_128_table)

rol-value :
    (x : ℕ) (s : StatusRegister)
    → x < 256
    → ((rol x s).0 ≡ (x * 2 + bit s.c) % 256) × ((rol x s).1.c ≡ leb 128 x)
unfolding rol
rol-value x s h =
    rw (bit_or_concat 1 8 x (bit s.c) h (ground arith), bit_and-128 x h)
      (ground arith, ground arith)

ror-value :
    (x : ℕ) (s : StatusRegister)
    → x < 256
    → ((ror x s).0 ≡ x / 2 + bit s.c * 128) × ((ror x s).1.c ≡ (x % 2 == 1))
unfolding ror
ror-value x s h = rw (bit_and-one x h) (ground (arith, or_128 (x / 2) (omega arith)), ground arith)

-- `ror` undoes `rol`, and `rol` undoes `ror`, on the byte and on the carry.
pub ror-rol :
    (x : ℕ) (s : StatusRegister)
    → x < 256
    → let (up, s') = rol x s in
      let (down, s'') = ror x s in
      ((ror up s').0 ≡ x)
      × ((ror up s').1.c ≡ s.c)
      × ((rol down s'').0 ≡ x)
      × ((rol down s'').1.c ≡ s.c)
ror-rol x s h = ground (
  arith,
  rol-value x s h,
  ror-value x s h,
  ror-value (rol x s).0 (rol x s).1,
  rol-value (ror x s).0 (ror x s).1,
)

-- The shifts of a byte: `asl` doubles and drops the top digit into C, `lsr` halves and drops the
-- lowest digit into C, and `asr` halves the signed number, rounding down, with the same C.
pub shifts_lem :
    (x : ℕ) (s : StatusRegister)
    → x < 256
    → ((asl x s).0 ≡ x * 2 % 256)
      × ((asl x s).1.c ≡ leb 128 x)
      × ((lsr x s).0 ≡ x / 2)
      × ((lsr x s).1.c ≡ (x % 2 == 1))
      × ((asr x s).0 ≡ x / 2 + x / 128 * 128)
      × ((asr x s).1.c ≡ (x % 2 == 1))
unfolding asl lsr asr
shifts_lem x s h =
    rw (bit_and-one x h, bit_and-128 x h)
      (
        refl,
        ground arith,
        refl,
        ground arith,
        ground (arith, bit_or_concat 7 1 (x / 128) (x / 2)),
        ground arith,
      )
