-- ===== src/Cpu/Table/Arithmetic.antt =====
-- Subtraction, comparison and 16-bit addition: a part of the table that the constructor fills (emulator/cpu6301.cc).
use hd6301_thing.Common.{ℕ, List, [], ◌∷◌, u8}
use hd6301_thing.Memory.{AddressSpace}
use hd6301_thing.Cpu.Alu.{sbc, sub}
use hd6301_thing.Cpu.State.{addd, by_ref, subd, acc_a, acc_b}
use hd6301_thing.Cpu.Instruction.{
  Instruction, entry, dir, ext, idx, im2, imm, compare, with_get, with_get16,
}

module _ {W : Type 0} (memory : AddressSpace W) where
  abbrev pub subtract_entries : List (ℕ × Instruction W)
  subtract_entries =
      entry 0x80 "suba" 2 2 imm (λ d. by_ref acc_a (λ r. sub r (u8 d)))
      ∷ entry 0x90 "suba" 2 3 dir (with_get memory (λ m. by_ref acc_a (λ r. sub r m)))
      ∷ entry 0xa0 "suba" 2 4 idx (with_get memory (λ m. by_ref acc_a (λ r. sub r m)))
      ∷ entry 0xb0 "suba" 3 4 ext (with_get memory (λ m. by_ref acc_a (λ r. sub r m)))
      ∷ entry 0xc0 "subb" 2 2 imm (λ d. by_ref acc_b (λ r. sub r (u8 d)))
      ∷ entry 0xd0 "subb" 2 3 dir (with_get memory (λ m. by_ref acc_b (λ r. sub r m)))
      ∷ entry 0xe0 "subb" 2 4 idx (with_get memory (λ m. by_ref acc_b (λ r. sub r m)))
      ∷ entry 0xf0 "subb" 3 4 ext (with_get memory (λ m. by_ref acc_b (λ r. sub r m)))
      ∷ entry 0x81 "cmpa" 2 2 imm (λ d. compare acc_a (u8 d))
      ∷ entry 0x91 "cmpa" 2 3 dir (with_get memory (compare acc_a))
      ∷ entry 0xa1 "cmpa" 2 4 idx (with_get memory (compare acc_a))
      ∷ entry 0xb1 "cmpa" 3 4 ext (with_get memory (compare acc_a))
      ∷ entry 0xc1 "cmpb" 2 2 imm (λ d. compare acc_b (u8 d))
      ∷ entry 0xd1 "cmpb" 2 3 dir (with_get memory (compare acc_b))
      ∷ entry 0xe1 "cmpb" 2 4 idx (with_get memory (compare acc_b))
      ∷ entry 0xf1 "cmpb" 3 4 ext (with_get memory (compare acc_b))
      ∷ entry 0x82 "sbca" 2 2 imm (λ d. by_ref acc_a (λ r. sbc r (u8 d)))
      ∷ entry 0x92 "sbca" 2 3 dir (with_get memory (λ m. by_ref acc_a (λ r. sbc r m)))
      ∷ entry 0xa2 "sbca" 2 4 idx (with_get memory (λ m. by_ref acc_a (λ r. sbc r m)))
      ∷ entry 0xb2 "sbca" 3 4 ext (with_get memory (λ m. by_ref acc_a (λ r. sbc r m)))
      ∷ entry 0xc2 "sbcb" 2 2 imm (λ d. by_ref acc_b (λ r. sbc r (u8 d)))
      ∷ entry 0xd2 "sbcb" 2 3 dir (with_get memory (λ m. by_ref acc_b (λ r. sbc r m)))
      ∷ entry 0xe2 "sbcb" 2 4 idx (with_get memory (λ m. by_ref acc_b (λ r. sbc r m)))
      ∷ entry 0xf2 "sbcb" 3 4 ext (with_get memory (λ m. by_ref acc_b (λ r. sbc r m)))
      ∷ []

  abbrev pub wide_arithmetic_entries : List (ℕ × Instruction W)
  wide_arithmetic_entries =
      entry 0x83 "subd" 3 3 im2 subd
      ∷ entry 0x93 "subd" 2 4 dir (with_get16 memory subd)
      ∷ entry 0xa3 "subd" 2 5 idx (with_get16 memory subd)
      ∷ entry 0xb3 "subd" 3 5 ext (with_get16 memory subd)
      ∷ entry 0xc3 "addd" 3 3 im2 addd
      ∷ entry 0xd3 "addd" 2 4 dir (with_get16 memory addd)
      ∷ entry 0xe3 "addd" 2 5 idx (with_get16 memory addd)
      ∷ entry 0xf3 "addd" 3 5 ext (with_get16 memory addd)
      ∷ []
