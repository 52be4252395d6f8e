-- ===== src/Cpu/Flags.antt =====
-- What the arithmetic operations compute and what their flags mean (emulator/cpu6301.cc).
use hd6301_thing.Common.{
  excess8, ℕ, ◌+◌, ◌-◌, ◌/◌, ◌%◌, ◌<◌, Bool, not, ◌&&◌, ◌≡◌, arith, ltb, leb, nz, ◌||◌, ◌==◌, bit,
  bit_and-one,
}
use hd6301_thing.Cpu.Alu.{StatusRegister, add, cmp}

-- The flags of a sum, from its top digits.
sum_carry :
    (d m : ℕ) (carry : Bool)
    → d < 256
    → m < 256
    → let r = (d + m + bit carry) % 256 in
      (nz (d / 128) && nz (m / 128)
        || nz (m / 128) && not (nz (r / 128))
        || not (nz (r / 128)) && nz (d / 128))
      ≡ ltb 255 (d + m + bit carry)
sum_carry d m carry hd hm = ground arith

sum_overflow :
    (d m : ℕ) (carry : Bool)
    → d < 256
    → m < 256
    → let r = (d + m + bit carry) % 256 in
      let sum = excess8 d + excess8 m + bit carry in
      (nz (d / 128) && nz (m / 128) && not (nz (r / 128))
        || not (nz (d / 128)) && not (nz (m / 128)) && nz (r / 128))
      ≡ not (leb 128 sum && ltb sum 384)
sum_overflow d m carry hd hm = ground arith

sum_half :
    (d m : ℕ) (carry : Bool)
    → d < 256
    → m < 256
    → let r = (d + m + bit carry) % 256 in
      (nz (d / 8 % 2) && nz (m / 8 % 2)
        || nz (m / 8 % 2) && not (nz (r / 8 % 2))
        || not (nz (r / 8 % 2)) && nz (d / 8 % 2))
      ≡ ltb 15 (d % 16 + m % 16 + bit carry)
sum_half d m carry hd hm = ground arith

zero_difference : (d m : ℕ) → d < 256 → m < 256 → ((d + 256 - m) % 256 == 0) ≡ (d == m)
zero_difference d m hd hm = ground arith

top_digit : (x : ℕ) → nz (x / 128) ≡ leb 128 x
top_digit x = ground arith

-- `add` is addition of bytes with the carry in. C says that the unsigned sum exceeds 255, H that
-- the sum of the low digits exceeds 15, V that the signed sum is outside -128..127; N and Z are the
-- sign and the zeroness of the result, and I is unchanged.
pub add_lem :
    (dest mem : ℕ) (carry : Bool) (sr : StatusRegister)
    → dest < 256
    → mem < 256
    → let r = (dest + mem + bit carry) % 256 in
      let sum = excess8 dest + excess8 mem + bit carry in
      add dest carry mem sr ≡ (
        r,
        record {
          h = ltb 15 (dest % 16 + mem % 16 + bit carry);
          i = sr.i;
          n = leb 128 r;
          z = r == 0;
          v = not (leb 128 sum && ltb sum 384);
          c = ltb 255 (dest + mem + bit carry);
        },
      )
unfolding add
add_lem dest mem carry sr hd hm =
    simp
      (
        bit_and-one (dest / 8) (omega arith),
        bit_and-one (mem / 8) (omega arith),
        bit_and-one ((dest + mem + bit carry) % 256 / 8) (omega arith),
        sum_carry dest mem carry hd hm,
        sum_overflow dest mem carry hd hm,
        sum_half dest mem carry hd hm,
      )
      (rw (top_digit ((dest + mem + bit carry) % 256)))

-- The flags of a difference, from its top digits.
difference_borrow :
    (d m : ℕ)
    → d < 256
    → m < 256
    → let r = (d + 256 - m) % 256 in
      (not (nz (d / 128)) && nz (m / 128)
        || nz (m / 128) && nz (r / 128)
        || nz (r / 128) && not (nz (d / 128)))
      ≡ ltb d m
difference_borrow d m hd hm = ground arith

difference_overflow :
    (d m : ℕ)
    → d < 256
    → m < 256
    → let r = (d + 256 - m) % 256 in
      (nz (d / 128) && not (nz (m / 128)) && not (nz (r / 128))
        || not (nz (d / 128)) && nz (m / 128) && nz (r / 128))
      ≡ not (leb (excess8 m) (excess8 d + 128) && ltb (excess8 d) (excess8 m + 128))
difference_overflow d m hd hm = ground arith

-- `cmp` leaves the flags of the subtraction of bytes: C says that the unsigned difference is
-- negative, V that the signed difference is outside -128..127, Z that the bytes are equal, and N is
-- the sign of the result; H and I are unchanged.
pub cmp_lem :
    (dest mem : ℕ) (sr : StatusRegister)
    → dest < 256
    → mem < 256
    → cmp dest mem sr ≡ record {
      h = sr.h;
      i = sr.i;
      n = leb 128 ((dest + 256 - mem) % 256);
      z = dest == mem;
      v = not (leb (excess8 mem) (excess8 dest + 128) && ltb (excess8 dest) (excess8 mem + 128));
      c = ltb dest mem;
    }
unfolding cmp
cmp_lem dest mem sr hd hm =
    simp (difference_borrow dest mem hd hm, difference_overflow dest mem hd hm)
      (rw (top_digit ((dest + 256 - mem) % 256), zero_difference dest mem hd hm))
