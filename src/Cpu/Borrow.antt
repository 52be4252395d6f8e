-- ===== src/Cpu/Borrow.antt =====
-- Subtraction with borrow (emulator/cpu6301.cc, `sbc`).
use hd6301_thing.Common.{
  excess8, ℕ, ◌+◌, ◌-◌, ◌%◌, ◌<◌, false, not, ◌&&◌, ◌≡◌, ◌↔◌, arith, ltb, leb, ◌==◌, bit,
}
use hd6301_thing.Cpu.Alu.{StatusRegister, sbc}
use hd6301_thing.Cpu.Flags.{cmp_lem}

-- `sbc` subtracts the operand and the carry, and Z says that the result is 0. The carry that it
-- leaves is the borrow of that subtraction exactly when the operand is not 255 with the carry set
-- (`mem + carry` wraps to 0 and the borrow is lost), and its V is the signed overflow of that
-- subtraction exactly when the operand is not 127 with the carry set.
pub sbc_lem :
    (dest mem : ℕ) (sr : StatusRegister)
    → dest < 256
    → mem < 256
    → let taken = mem + bit sr.c in
      let signed_taken = excess8 mem + bit sr.c in
      let r = sbc dest mem sr in
      (r.0 ≡ (dest + 512 - taken) % 256)
      × (r.1.z ≡ (r.0 == 0))
      × ((r.1.c ≡ ltb dest taken) ↔ ((sr.c && (mem == 255)) ≡ false))
      × ((r.1.v
            ≡ not
                (leb signed_taken (excess8 dest + 128) && ltb (excess8 dest) (signed_taken + 128)))
          ↔ ((sr.c && (mem == 127)) ≡ false))
unfolding sbc
sbc_lem dest mem sr hd hm =
    rw (cmp_lem dest ((mem + bit sr.c) % 256) sr hd (omega arith))
      (ground arith, ground arith, ground arith, ground arith)
