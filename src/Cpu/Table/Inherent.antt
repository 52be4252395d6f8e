-- ===== src/Cpu/Table/Inherent.antt =====
-- Instructions on registers and flags, the branches, and the stack: a part of the table that the constructor fills (emulator/cpu6301.cc).
use hd6301_thing.Common.{ℕ, ◌+◌, List, [], ◌∷◌, false, not, sub16, true, u16, u8}
use hd6301_thing.Memory.{AddressSpace}
use hd6301_thing.Cpu.Alu.{add, sub}
use hd6301_thing.Cpu.State.{
  add_z, asld, brx, by_ref, lsrd, mul, on_flags, set_acc, tap, tpa, xgdx, acc_a, acc_b,
}
use hd6301_thing.Cpu.Access.{psh16, psh8, rti}
use hd6301_thing.Cpu.Instruction.{
  Instruction, entry, aca, acb, acd, imp, rel, branch, compare, is_bge, is_bgt, is_bhi, is_ble,
  is_bls, is_blt, load, with_pul16, with_pul8,
}

module _ {W : Type 0} (memory : AddressSpace W) where
  abbrev pub register_entries : List (ℕ × Instruction W)
  register_entries =
      entry 0x01 "nop" 1 1 imp (λ d c. c)
      ∷ entry 0x04 "lsrd" 1 1 acd lsrd
      ∷ entry 0x05 "asld" 1 1 acd asld
      ∷ entry 0x06 "tap" 1 1 imp (λ d. tap)
      ∷ entry 0x07 "tpa" 1 1 imp (λ d. tpa)
      ∷ entry 0x08 "inx" 1 1 imp (λ d. add_z 1)
      ∷ entry 0x09 "dex" 1 1 imp (λ d. add_z 0xffff)
      ∷ entry 0x0a "clv" 1 1 imp (λ d. on_flags (λ s. record s { v = false }))
      ∷ entry 0x0b "sev" 1 1 imp (λ d. on_flags (λ s. record s { v = true }))
      ∷ entry 0x0c "clc" 1 1 imp (λ d. on_flags (λ s. record s { c = false }))
      ∷ entry 0x0d "sec" 1 1 imp (λ d. on_flags (λ s. record s { c = true }))
      ∷ entry 0x0e "cli" 1 1 imp (λ d. on_flags (λ s. record s { i = false }))
      ∷ entry 0x0f "sei" 1 1 imp (λ d. on_flags (λ s. record s { i = true }))
      ∷ entry 0x10 "sba" 1 1 acb (λ d. by_ref acc_a (λ r. sub r (u8 d)))
      ∷ entry 0x11 "cba" 1 1 acb (λ d. compare acc_a (u8 d))
      ∷ entry 0x16 "tab" 1 1 aca (λ d. load acc_b (u8 d))
      ∷ entry 0x17 "tba" 1 1 acb (λ d. load acc_a (u8 d))
      ∷ entry 0x18 "xgdx" 1 2 imp (λ d. xgdx)
      ∷ entry 0x1b "aba" 1 1 acb (λ d. by_ref acc_a (λ r. add r false (u8 d)))
      ∷ []

  abbrev pub branch_entries : List (ℕ × Instruction W)
  branch_entries =
      entry 0x20 "bra" 2 3 rel (brx true)
      ∷ entry 0x21 "brn" 2 3 rel (brx false)
      ∷ entry 0x22 "bhi" 2 3 rel (branch is_bhi)
      ∷ entry 0x23 "bls" 2 3 rel (branch is_bls)
      ∷ entry 0x24 "bcc" 2 3 rel (branch (λ s. not s.c))
      ∷ entry 0x25 "bcs" 2 3 rel (branch (λ s. s.c))
      ∷ entry 0x26 "bne" 2 3 rel (branch (λ s. not s.z))
      ∷ entry 0x27 "beq" 2 3 rel (branch (λ s. s.z))
      ∷ entry 0x28 "bvc" 2 3 rel (branch (λ s. not s.v))
      ∷ entry 0x29 "bvs" 2 3 rel (branch (λ s. s.v))
      ∷ entry 0x2a "bpl" 2 3 rel (branch (λ s. not s.n))
      ∷ entry 0x2b "bmi" 2 3 rel (branch (λ s. s.n))
      ∷ entry 0x2c "bge" 2 3 rel (branch is_bge)
      ∷ entry 0x2d "blt" 2 3 rel (branch is_blt)
      ∷ entry 0x2e "bgt" 2 3 rel (branch is_bgt)
      ∷ entry 0x2f "ble" 2 3 rel (branch is_ble)
      ∷ []

  abbrev pub stack_entries : List (ℕ × Instruction W)
  stack_entries =
      entry 0x30 "tsx" 1 1 imp (λ d c. record c { x = u16 (c.sp + 1) })
      ∷ entry 0x31 "ins" 1 1 imp (λ d c. record c { sp = u16 (c.sp + 1) })
      ∷ entry 0x32 "pula" 1 3 imp (λ d. with_pul8 memory (set_acc acc_a))
      ∷ entry 0x33 "pulb" 1 3 imp (λ d. with_pul8 memory (set_acc acc_b))
      ∷ entry 0x34 "des" 1 1 imp (λ d c. record c { sp = sub16 c.sp 1 })
      ∷ entry 0x35 "txs" 1 1 imp (λ d c. record c { sp = sub16 c.x 1 })
      ∷ entry 0x36 "psha" 1 4 aca (λ d. psh8 memory (u8 d))
      ∷ entry 0x37 "pshb" 1 4 acb (λ d. psh8 memory (u8 d))
      ∷ entry 0x38 "pulx" 1 4 imp (λ d. with_pul16 memory (λ v c. record c { x = v }))
      ∷ entry 0x39 "rts" 1 5 imp (λ d. with_pul16 memory (λ v c. record c { pc = v }))
      ∷ entry 0x3a "abx" 1 1 imp (λ d c. record c { x = u16 (c.x + c.b) })
      ∷ entry 0x3b "rti" 1 10 imp (λ d. rti memory)
      ∷ entry 0x3c "pshx" 1 5 imp (λ d c. psh16 memory c.x c)
      ∷ entry 0x3d "mul" 1 7 imp (λ d. mul)
      ∷ []
