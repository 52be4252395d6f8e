-- ===== src/Cpu/WideFlags.antt =====
-- The flags of 16-bit comparison and addition (emulator/cpu6301.cc, `cmp16` and `addd`).
use hd6301_thing.Common.{
  excess16, ℕ, ◌+◌, ◌-◌, ◌/◌, ◌%◌, ◌<◌, not, ◌&&◌, ◌||◌, ◌≡◌, arith, ltb, leb, nz, ◌==◌,
  bit_or_concat, ◌*◌,
}
use hd6301_thing.Cpu.Alu.{StatusRegister, cmp16, addd_flags}
use hd6301_thing.Cpu.State.{Cpu, get_d, addd}

module _ (d m : ℕ) (hd : d < 65536) (hm : m < 65536) where
  sum_carry :
      let r = (d + m) % 65536 in
      (nz (d / 32768) && nz (m / 32768)
        || nz (m / 32768) && not (nz (r / 32768))
        || not (nz (r / 32768)) && nz (d / 32768))
      ≡ ltb 65535 (d + m)
  sum_carry = ground arith

  sum_overflow :
      let r = (d + m) % 65536 in
      let sum = excess16 d + excess16 m in
      (nz (d / 32768) && nz (m / 32768) && not (nz (r / 32768))
        || not (nz (d / 32768)) && not (nz (m / 32768)) && nz (r / 32768))
      ≡ not (leb 32768 sum && ltb sum 98304)
  sum_overflow = ground arith

  difference_borrow :
      let r = (d + 65536 - m) % 65536 in
      (not (nz (d / 32768)) && nz (m / 32768)
        || nz (m / 32768) && nz (r / 32768)
        || nz (r / 32768) && not (nz (d / 32768)))
      ≡ ltb d m
  difference_borrow = ground arith

  difference_overflow :
      let r = (d + 65536 - m) % 65536 in
      (nz (d / 32768) && not (nz (m / 32768)) && not (nz (r / 32768))
        || not (nz (d / 32768)) && nz (m / 32768) && nz (r / 32768))
      ≡ not (leb (excess16 m) (excess16 d + 32768) && ltb (excess16 d) (excess16 m + 32768))
  difference_overflow = ground arith

  zero_difference : ((d + 65536 - m) % 65536 == 0) ≡ (d == m)
  zero_difference = ground arith

top_digit : (x : ℕ) → nz (x / 32768) ≡ leb 32768 x
top_digit x = ground arith

-- `cmp16` leaves the flags of the subtraction of words: C says that the unsigned difference is
-- negative, V that the signed difference is outside -32768..32767, Z that the words are equal, and
-- N is the sign of the result; H and I are unchanged.
pub cmp16_lem :
    (dest mem : ℕ) (sr : StatusRegister)
    → dest < 65536
    → mem < 65536
    → cmp16 dest mem sr ≡ record {
      h = sr.h;
      i = sr.i;
      n = leb 32768 ((dest + 65536 - mem) % 65536);
      z = dest == mem;
      v = not (
          leb (excess16 mem) (excess16 dest + 32768) && ltb (excess16 dest) (excess16 mem + 32768));
      c = ltb dest mem;
    }
unfolding cmp16
cmp16_lem dest mem sr hd hm =
    simp (difference_borrow dest mem hd hm, difference_overflow dest mem hd hm)
      (rw (top_digit ((dest + 65536 - mem) % 65536), zero_difference dest mem hd hm))

addd_flags_lem :
    (dest mem : ℕ) (sr : StatusRegister)
    → dest < 65536
    → mem < 65536
    → let r = (dest + mem) % 65536 in
      let sum = excess16 dest + excess16 mem in
      addd_flags dest mem sr ≡ record {
        h = sr.h;
        i = sr.i;
        n = leb 32768 r;
        z = r == 0;
        v = not (leb 32768 sum && ltb sum 98304);
        c = ltb 65535 (dest + mem);
      }
unfolding addd_flags
addd_flags_lem dest mem sr hd hm =
    simp (sum_carry dest mem hd hm, sum_overflow dest mem hd hm)
      (rw (top_digit ((dest + mem) % 65536)))

get_d-eq-sum : {W : Type 0} (c : Cpu W) → c.a < 256 → c.b < 256 → get_d c ≡ c.a * 256 + c.b
unfolding get_d
get_d-eq-sum c ha hb = bit_or_concat 8 8 c.a c.b ha hb

high_byte : (n : ℕ) → n % 65536 / 256 % 256 ≡ n % 65536 / 256
high_byte n = omega arith

-- `addd` adds a word to the accumulators A and B, read as one word with A above, and leaves the
-- flags of that sum. It changes no other register and not the world.
pub addd_lem :
    {W : Type 0} (c : Cpu W) (value : ℕ)
    → c.a < 256
    → c.b < 256
    → value < 65536
    → let d = c.a * 256 + c.b in
      let r = (d + value) % 65536 in
      let sum = excess16 d + excess16 value in
      addd value c ≡ record c {
        a = r / 256;
        b = r % 256;
        sr = record {
          h = c.sr.h;
          i = c.sr.i;
          n = leb 32768 r;
          z = r == 0;
          v = not (leb 32768 sum && ltb sum 98304);
          c = ltb 65535 (d + value);
        };
      }
unfolding addd
addd_lem c value ha hb hv = rw (
  get_d-eq-sum c ha hb,
  addd_flags_lem (c.a * 256 + c.b) value c.sr (omega arith) hv,
  high_byte (c.a * 256 + c.b + value),
)
