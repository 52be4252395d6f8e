-- ===== src/Cpu/Table/Modify.antt =====
-- Instructions that change a byte in place, `tst` and `jmp`: a part of the table that the constructor fills (emulator/cpu6301.cc).
use hd6301_thing.Common.{ℕ, List, [], ◌∷◌, bit_and, bit_or, bit_xor, false, true, u8}
use hd6301_thing.Memory.{AddressSpace}
use hd6301_thing.Cpu.Alu.{asl, asr, clr, cmp, complement, dec, inc, lsr, neg, rol, ror}
use hd6301_thing.Cpu.State.{by_ref, on_flags, acc_a, acc_b}
use hd6301_thing.Cpu.Access.{mem_op, set_op}
use hd6301_thing.Cpu.Instruction.{
  Instruction, entry, aca, acb, ext, idx, imm, logic_dir, logic_idx, with_get,
}

module _ {W : Type 0} (memory : AddressSpace W) where
  abbrev pub complement_entries : List (ℕ × Instruction W)
  complement_entries =
      entry 0x40 "nega" 1 1 aca (λ d. by_ref acc_a neg)
      ∷ entry 0x50 "negb" 1 1 acb (λ d. by_ref acc_b neg)
      ∷ entry 0x60 "neg" 2 6 idx (λ d. mem_op memory d neg true)
      ∷ entry 0x70 "neg" 3 6 ext (λ d. mem_op memory d neg true)
      ∷ entry 0x61 "aim" 3 7 imm (logic_idx memory bit_and true)
      ∷ entry 0x71 "aim" 3 6 imm (logic_dir memory bit_and true)
      ∷ entry 0x62 "oim" 3 7 imm (logic_idx memory bit_or true)
      ∷ entry 0x72 "oim" 3 6 imm (logic_dir memory bit_or true)
      ∷ entry 0x65 "eim" 3 7 imm (logic_idx memory bit_xor true)
      ∷ entry 0x75 "eim" 3 6 imm (logic_dir memory bit_xor true)
      ∷ entry 0x6b "tim" 3 7 imm (logic_idx memory bit_and false)
      ∷ entry 0x7b "tim" 3 6 imm (logic_dir memory bit_and false)
      ∷ entry 0x43 "coma" 1 1 aca (λ d. by_ref acc_a complement)
      ∷ entry 0x53 "comb" 1 1 acb (λ d. by_ref acc_b complement)
      ∷ entry 0x63 "com" 2 6 idx (λ d. mem_op memory d complement true)
      ∷ entry 0x73 "com" 3 6 ext (λ d. mem_op memory d complement true)
      ∷ []

  abbrev pub shift_entries : List (ℕ × Instruction W)
  shift_entries =
      entry 0x44 "lsra" 1 1 aca (λ d. by_ref acc_a lsr)
      ∷ entry 0x54 "lsrb" 1 1 acb (λ d. by_ref acc_b lsr)
      ∷ entry 0x64 "lsr" 2 6 idx (λ d. mem_op memory d lsr true)
      ∷ entry 0x74 "lsr" 3 6 ext (λ d. mem_op memory d lsr true)
      ∷ entry 0x46 "rora" 1 1 aca (λ d. by_ref acc_a ror)
      ∷ entry 0x56 "rorb" 1 1 acb (λ d. by_ref acc_b ror)
      ∷ entry 0x66 "ror" 2 6 idx (λ d. mem_op memory d ror true)
      ∷ entry 0x76 "ror" 3 6 ext (λ d. mem_op memory d ror true)
      ∷ entry 0x47 "asra" 1 1 aca (λ d. by_ref acc_a asr)
      ∷ entry 0x57 "asrb" 1 1 acb (λ d. by_ref acc_b asr)
      ∷ entry 0x67 "asr" 2 6 idx (λ d. mem_op memory d asr true)
      ∷ entry 0x77 "asr" 3 6 ext (λ d. mem_op memory d asr true)
      ∷ entry 0x48 "asla" 1 1 aca (λ d. by_ref acc_a asl)
      ∷ entry 0x58 "aslb" 1 1 acb (λ d. by_ref acc_b asl)
      ∷ entry 0x68 "asl" 2 6 idx (λ d. mem_op memory d asl true)
      ∷ entry 0x78 "asl" 3 6 ext (λ d. mem_op memory d asl true)
      ∷ entry 0x49 "rola" 1 1 aca (λ d. by_ref acc_a rol)
      ∷ entry 0x59 "rolb" 1 1 acb (λ d. by_ref acc_b rol)
      ∷ entry 0x69 "rol" 2 6 idx (λ d. mem_op memory d rol true)
      ∷ entry 0x79 "rol" 3 6 ext (λ d. mem_op memory d rol true)
      ∷ []

  abbrev pub count_entries : List (ℕ × Instruction W)
  count_entries =
      entry 0x4a "deca" 1 1 aca (λ d. by_ref acc_a dec)
      ∷ entry 0x5a "decb" 1 1 acb (λ d. by_ref acc_b dec)
      ∷ entry 0x6a "dec" 2 6 idx (λ d. mem_op memory d dec true)
      ∷ entry 0x7a "dec" 3 6 ext (λ d. mem_op memory d dec true)
      ∷ entry 0x4c "inca" 1 1 aca (λ d. by_ref acc_a inc)
      ∷ entry 0x5c "incb" 1 1 acb (λ d. by_ref acc_b inc)
      ∷ entry 0x6c "inc" 2 6 idx (λ d. mem_op memory d inc true)
      ∷ entry 0x7c "inc" 3 6 ext (λ d. mem_op memory d inc true)
      ∷ entry 0x4d "tsta" 1 1 aca (λ d. on_flags (cmp (u8 d) 0))
      ∷ entry 0x5d "tstb" 1 1 acb (λ d. on_flags (cmp (u8 d) 0))
      ∷ entry 0x6d "tst" 2 4 idx (with_get memory (λ m. on_flags (cmp m 0)))
      ∷ entry 0x7d "tst" 3 4 ext (with_get memory (λ m. on_flags (cmp m 0)))
      ∷ entry 0x6e "jmp" 2 3 idx (λ d c. record c { pc = d })
      ∷ entry 0x7e "jmp" 3 3 ext (λ d c. record c { pc = d })
      ∷ entry 0x4f "clra" 1 1 aca (λ d. by_ref acc_a clr)
      ∷ entry 0x5f "clrb" 1 1 acb (λ d. by_ref acc_b clr)
      ∷ entry 0x6f "clr" 2 5 idx (λ d. set_op memory 0 d clr)
      ∷ entry 0x7f "clr" 3 5 ext (λ d. set_op memory 0 d clr)
      ∷ []
