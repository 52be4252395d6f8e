-- ===== src/Cpu/Table/Wide.antt =====
-- 16-bit registers and the subroutine calls: a part of the table that the constructor fills (emulator/cpu6301.cc).
use hd6301_thing.Common.{ℕ, List, [], ◌∷◌, u8}
use hd6301_thing.Memory.{AddressSpace}
use hd6301_thing.Cpu.State.{get_d}
use hd6301_thing.Cpu.Access.{bsr, jsr}
use hd6301_thing.Cpu.Instruction.{
  Instruction, entry, dir, ext, idx, im2, imm, compare_x, load_d, load_sp, load_x, store16,
  with_get16,
}

module _ {W : Type 0} (memory : AddressSpace W) where
  abbrev pub load_entries : List (ℕ × Instruction W)
  load_entries =
      entry 0x8c "cpx" 3 3 im2 compare_x
      ∷ entry 0x9c "cpx" 2 4 dir (with_get16 memory compare_x)
      ∷ entry 0xac "cpx" 2 5 idx (with_get16 memory compare_x)
      ∷ entry 0xbc "cpx" 3 5 ext (with_get16 memory compare_x)
      ∷ entry 0xcc "ldd" 3 3 im2 load_d
      ∷ entry 0xdc "ldd" 2 4 dir (with_get16 memory load_d)
      ∷ entry 0xec "ldd" 2 5 idx (with_get16 memory load_d)
      ∷ entry 0xfc "ldd" 3 5 ext (with_get16 memory load_d)
      ∷ entry 0x8d "bsr" 2 5 imm (λ d. bsr memory (u8 d))
      ∷ entry 0x9d "jsr" 2 5 dir (jsr memory)
      ∷ entry 0xad "jsr" 2 5 idx (jsr memory)
      ∷ entry 0xbd "jsr" 3 6 ext (jsr memory)
      ∷ []

  abbrev pub store_entries : List (ℕ × Instruction W)
  store_entries =
      entry 0xdd "std" 2 4 dir (store16 memory get_d)
      ∷ entry 0xed "std" 2 5 idx (store16 memory get_d)
      ∷ entry 0xfd "std" 3 5 ext (store16 memory get_d)
      ∷ entry 0x8e "lds" 3 3 im2 load_sp
      ∷ entry 0x9e "lds" 2 4 dir (with_get16 memory load_sp)
      ∷ entry 0xae "lds" 2 5 idx (with_get16 memory load_sp)
      ∷ entry 0xbe "lds" 3 5 ext (with_get16 memory load_sp)
      ∷ entry 0xce "ldx" 3 3 im2 load_x
      ∷ entry 0xde "ldx" 2 4 dir (with_get16 memory load_x)
      ∷ entry 0xee "ldx" 2 5 idx (with_get16 memory load_x)
      ∷ entry 0xfe "ldx" 3 5 ext (with_get16 memory load_x)
      ∷ entry 0x9f "sts" 2 4 dir (store16 memory (λ c. c.sp))
      ∷ entry 0xaf "sts" 2 5 idx (store16 memory (λ c. c.sp))
      ∷ entry 0xbf "sts" 3 5 ext (store16 memory (λ c. c.sp))
      ∷ entry 0xdf "stx" 2 4 dir (store16 memory (λ c. c.x))
      ∷ entry 0xef "stx" 2 5 idx (store16 memory (λ c. c.x))
      ∷ entry 0xff "stx" 3 5 ext (store16 memory (λ c. c.x))
      ∷ []
