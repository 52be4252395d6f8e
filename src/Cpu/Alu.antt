-- ===== src/Cpu/Alu.antt =====
-- The status register and the operations on values and flags (emulator/cpu6301.h, `StatusRegister`,
-- and the instruction implementations of emulator/cpu6301.cc that touch no memory). An operation on
-- a `uint8_t&` takes the value and the flags, and gives both back.
use hd6301_thing.Common.{
  ℕ, ◌+◌, ◌-◌, bit_and, bit_or, Bool, true, false, not, xor, ◌&&◌, ◌||◌, nz, bit, ◌==◌, u8, u16,
  sub8, sub16, not8, ◌<<<◌, ◌>>>◌,
}

pub record StatusRegister : Type 0 where
  pub h : Bool
  pub i : Bool
  pub n : Bool
  pub z : Bool
  pub v : Bool
  pub c : Bool

unfoldable pub from_integer : ℕ → StatusRegister
from_integer r = record {
  h = nz (bit_and r 0x20);
  i = nz (bit_and r 0x10);
  n = nz (bit_and r 0x08);
  z = nz (bit_and r 0x04);
  v = nz (bit_and r 0x02);
  c = nz (bit_and r 0x01);
}

unfoldable pub as_integer : StatusRegister → ℕ
as_integer s =
    bit_or
      (bit_or
        (bit_or (bit_or (bit_or (bit_or 0xC0 (bit s.h <<< 5)) (bit s.i <<< 4)) (bit s.n <<< 3))
          (bit s.z <<< 2))
        (bit s.v <<< 1))
      (bit s.c)

unfoldable pub cmp : ℕ → ℕ → StatusRegister → StatusRegister
cmp dest mem sr =
    let r = sub8 dest mem in
    let d7 = nz (dest >>> 7) in
    let m7 = nz (mem >>> 7) in
    let r7 = nz (r >>> 7) in
    record sr {
      n = r7;
      z = r == 0;
      v = d7 && not m7 && not r7 || not d7 && m7 && r7;
      c = not d7 && m7 || m7 && r7 || r7 && not d7;
    }

unfoldable pub cmp16 : ℕ → ℕ → StatusRegister → StatusRegister
cmp16 dest mem sr =
    let r = sub16 dest mem in
    let d15 = nz (dest >>> 15) in
    let m15 = nz (mem >>> 15) in
    let r15 = nz (r >>> 15) in
    record sr {
      n = r15;
      z = r == 0;
      v = d15 && not m15 && not r15 || not d15 && m15 && r15;
      c = not d15 && m15 || m15 && r15 || r15 && not d15;
    }

unfoldable pub sub : ℕ → ℕ → StatusRegister → ℕ × StatusRegister
sub dest mem sr = (sub8 dest mem, cmp dest mem sr)

-- `mem + carry` becomes a `uint8_t` when it is passed to `cmp`.
unfoldable pub sbc : ℕ → ℕ → StatusRegister → ℕ × StatusRegister
sbc dest mem sr =
    let carry = bit sr.c in (u8 (dest + 512 - mem - carry), cmp dest (u8 (mem + carry)) sr)

unfoldable pub add : ℕ → Bool → ℕ → StatusRegister → ℕ × StatusRegister
add dest carry mem sr =
    let r = u8 (dest + mem + bit carry) in
    let d3 = nz (bit_and (dest >>> 3) 1) in
    let m3 = nz (bit_and (mem >>> 3) 1) in
    let r3 = nz (bit_and (r >>> 3) 1) in
    let d7 = nz (dest >>> 7) in
    let m7 = nz (mem >>> 7) in
    let r7 = nz (r >>> 7) in
    (
      r,
      record sr {
        h = d3 && m3 || m3 && not r3 || not r3 && d3;
        n = r7;
        z = r == 0;
        v = d7 && m7 && not r7 || not d7 && not m7 && r7;
        c = d7 && m7 || m7 && not r7 || not r7 && d7;
      },
    )

-- The flags of `addd`.
unfoldable pub addd_flags : ℕ → ℕ → StatusRegister → StatusRegister
addd_flags d mem sr =
    let r = u16 (d + mem) in
    let d15 = nz (d >>> 15) in
    let m15 = nz (mem >>> 15) in
    let r15 = nz (r >>> 15) in
    record sr {
      n = r15;
      z = r == 0;
      v = d15 && m15 && not r15 || not d15 && not m15 && r15;
      c = d15 && m15 || m15 && not r15 || not r15 && d15;
    }

unfoldable pub neg : ℕ → StatusRegister → ℕ × StatusRegister
neg dest sr =
    let r = sub8 0 dest in
    (r, record sr { n = nz (bit_and r 0x80); z = r == 0; v = r == 0x80; c = not (r == 0) })

unfoldable pub nzv_sr : ℕ → StatusRegister → StatusRegister
nzv_sr result sr = record sr { n = nz (bit_and result 0x80); z = result == 0; v = false }

unfoldable pub nzv_sr16 : ℕ → StatusRegister → StatusRegister
nzv_sr16 result sr = record sr { n = nz (bit_and result 0x8000); z = result == 0; v = false }

unfoldable pub logic : ℕ → (ℕ → ℕ → ℕ) → ℕ → StatusRegister → ℕ × StatusRegister
unfolding nzv_sr
logic value op dest sr = let r = op dest value in (r, nzv_sr r sr)

-- `com`.
unfoldable pub complement : ℕ → StatusRegister → ℕ × StatusRegister
complement dest sr =
    let r = not8 dest in (r, record sr { n = nz (bit_and r 0x80); z = r == 0; v = false; c = true })

unfoldable pub rot_flags : ℕ → Bool → StatusRegister → StatusRegister
rot_flags result carry sr =
    let n' = nz (bit_and result 0x80) in
    record sr { n = n'; z = result == 0; v = xor n' carry; c = carry }

unfoldable pub rot_flags16 : ℕ → Bool → StatusRegister → StatusRegister
rot_flags16 result carry sr =
    let n' = nz (bit_and result 0x8000) in
    record sr { n = n'; z = result == 0; v = xor n' carry; c = carry }

unfoldable pub lsr : ℕ → StatusRegister → ℕ × StatusRegister
unfolding rot_flags
lsr dest sr = let r = dest >>> 1 in (r, rot_flags r (nz (bit_and dest 1)) sr)

unfoldable pub ror : ℕ → StatusRegister → ℕ × StatusRegister
unfolding rot_flags
ror dest sr =
    let r = bit_or (dest >>> 1) (bit sr.c <<< 7) in (r, rot_flags r (nz (bit_and dest 1)) sr)

unfoldable pub rol : ℕ → StatusRegister → ℕ × StatusRegister
unfolding rot_flags
rol dest sr =
    let r = u8 (bit_or (dest <<< 1) (bit sr.c)) in (r, rot_flags r (nz (bit_and dest 0x80)) sr)

unfoldable pub asr : ℕ → StatusRegister → ℕ × StatusRegister
unfolding rot_flags
asr dest sr =
    let r = bit_or (bit_and dest 0x80) (dest >>> 1) in (r, rot_flags r (nz (bit_and dest 1)) sr)

unfoldable pub asl : ℕ → StatusRegister → ℕ × StatusRegister
unfolding rot_flags
asl dest sr = let r = u8 (dest <<< 1) in (r, rot_flags r (nz (bit_and dest 0x80)) sr)

unfoldable pub dec : ℕ → StatusRegister → ℕ × StatusRegister
dec dest sr =
    let r = sub8 dest 1 in (r, record sr { v = dest == 0x80; n = nz (bit_and r 0x80); z = r == 0 })

unfoldable pub inc : ℕ → StatusRegister → ℕ × StatusRegister
inc dest sr =
    let r = u8 (dest + 1) in
    (r, record sr { v = dest == 0x7f; n = nz (bit_and r 0x80); z = r == 0 })

unfoldable pub clr : ℕ → StatusRegister → ℕ × StatusRegister
clr dest sr = (0, record sr { n = false; z = true; v = false; c = false })
