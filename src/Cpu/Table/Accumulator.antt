-- ===== src/Cpu/Table/Accumulator.antt =====
-- Logic, loads, stores and addition on the accumulators: a part of the table that the constructor fills (emulator/cpu6301.cc).
use hd6301_thing.Common.{ℕ, List, [], ◌∷◌, bit_and, bit_or, bit_xor, false, u8}
use hd6301_thing.Memory.{AddressSpace}
use hd6301_thing.Cpu.Alu.{add, logic}
use hd6301_thing.Cpu.State.{by_ref, acc_a, acc_b}
use hd6301_thing.Cpu.Instruction.{
  Instruction, entry, dir, ext, idx, imm, adc, bit_test, load, store, with_get,
}

module _ {W : Type 0} (memory : AddressSpace W) where
  abbrev pub and_entries : List (ℕ × Instruction W)
  and_entries =
      entry 0x84 "anda" 2 2 imm (λ d. by_ref acc_a (logic (u8 d) bit_and))
      ∷ entry 0x94 "anda" 2 3 dir (with_get memory (λ m. by_ref acc_a (logic m bit_and)))
      ∷ entry 0xa4 "anda" 2 4 idx (with_get memory (λ m. by_ref acc_a (logic m bit_and)))
      ∷ entry 0xb4 "anda" 3 4 ext (with_get memory (λ m. by_ref acc_a (logic m bit_and)))
      ∷ entry 0xc4 "andb" 2 2 imm (λ d. by_ref acc_b (logic (u8 d) bit_and))
      ∷ entry 0xd4 "andb" 2 3 dir (with_get memory (λ m. by_ref acc_b (logic m bit_and)))
      ∷ entry 0xe4 "andb" 2 4 idx (with_get memory (λ m. by_ref acc_b (logic m bit_and)))
      ∷ entry 0xf4 "andb" 3 4 ext (with_get memory (λ m. by_ref acc_b (logic m bit_and)))
      ∷ entry 0x85 "bita" 2 2 imm (bit_test acc_a)
      ∷ entry 0x95 "bita" 2 3 dir (with_get memory (bit_test acc_a))
      ∷ entry 0xa5 "bita" 2 4 idx (with_get memory (bit_test acc_a))
      ∷ entry 0xb5 "bita" 3 4 ext (with_get memory (bit_test acc_a))
      ∷ entry 0xc5 "bitb" 2 2 imm (bit_test acc_b)
      ∷ entry 0xd5 "bitb" 2 3 dir (with_get memory (bit_test acc_b))
      ∷ entry 0xe5 "bitb" 2 4 idx (with_get memory (bit_test acc_b))
      ∷ entry 0xf5 "bitb" 3 4 ext (with_get memory (bit_test acc_b))
      ∷ []

  abbrev pub transfer_entries : List (ℕ × Instruction W)
  transfer_entries =
      entry 0x86 "ldaa" 2 2 imm (λ d. load acc_a (u8 d))
      ∷ entry 0x96 "ldaa" 2 3 dir (with_get memory (load acc_a))
      ∷ entry 0xa6 "ldaa" 2 4 idx (with_get memory (load acc_a))
      ∷ entry 0xb6 "ldaa" 3 4 ext (with_get memory (load acc_a))
      ∷ entry 0xc6 "ldab" 2 2 imm (λ d. load acc_b (u8 d))
      ∷ entry 0xd6 "ldab" 2 3 dir (with_get memory (load acc_b))
      ∷ entry 0xe6 "ldab" 2 4 idx (with_get memory (load acc_b))
      ∷ entry 0xf6 "ldab" 3 4 ext (with_get memory (load acc_b))
      ∷ entry 0x97 "staa" 2 3 dir (store memory acc_a)
      ∷ entry 0xa7 "staa" 2 4 idx (store memory acc_a)
      ∷ entry 0xb7 "staa" 3 4 ext (store memory acc_a)
      ∷ entry 0xd7 "stab" 2 3 dir (store memory acc_b)
      ∷ entry 0xe7 "stab" 2 4 idx (store memory acc_b)
      ∷ entry 0xf7 "stab" 3 4 ext (store memory acc_b)
      ∷ []

  abbrev pub eor_adc_entries : List (ℕ × Instruction W)
  eor_adc_entries =
      entry 0x88 "eora" 2 2 imm (λ d. by_ref acc_a (logic (u8 d) bit_xor))
      ∷ entry 0x98 "eora" 2 3 dir (with_get memory (λ m. by_ref acc_a (logic m bit_xor)))
      ∷ entry 0xa8 "eora" 2 4 idx (with_get memory (λ m. by_ref acc_a (logic m bit_xor)))
      ∷ entry 0xb8 "eora" 3 4 ext (with_get memory (λ m. by_ref acc_a (logic m bit_xor)))
      ∷ entry 0xc8 "eorb" 2 2 imm (λ d. by_ref acc_b (logic (u8 d) bit_xor))
      ∷ entry 0xd8 "eorb" 2 3 dir (with_get memory (λ m. by_ref acc_b (logic m bit_xor)))
      ∷ entry 0xe8 "eorb" 2 4 idx (with_get memory (λ m. by_ref acc_b (logic m bit_xor)))
      ∷ entry 0xf8 "eorb" 3 4 ext (with_get memory (λ m. by_ref acc_b (logic m bit_xor)))
      ∷ entry 0x89 "adca" 2 2 imm (λ d. by_ref acc_a (λ r. adc r (u8 d)))
      ∷ entry 0x99 "adca" 2 3 dir (with_get memory (λ m. by_ref acc_a (λ r. adc r m)))
      ∷ entry 0xa9 "adca" 2 4 idx (with_get memory (λ m. by_ref acc_a (λ r. adc r m)))
      ∷ entry 0xb9 "adca" 3 4 ext (with_get memory (λ m. by_ref acc_a (λ r. adc r m)))
      ∷ entry 0xc9 "adcb" 2 2 imm (λ d. by_ref acc_b (λ r. adc r (u8 d)))
      ∷ entry 0xd9 "adcb" 2 3 dir (with_get memory (λ m. by_ref acc_b (λ r. adc r m)))
      ∷ entry 0xe9 "adcb" 2 4 idx (with_get memory (λ m. by_ref acc_b (λ r. adc r m)))
      ∷ entry 0xf9 "adcb" 3 4 ext (with_get memory (λ m. by_ref acc_b (λ r. adc r m)))
      ∷ []

  abbrev pub ora_add_entries : List (ℕ × Instruction W)
  ora_add_entries =
      entry 0x8a "oraa" 2 2 imm (λ d. by_ref acc_a (logic (u8 d) bit_or))
      ∷ entry 0x9a "oraa" 2 3 dir (with_get memory (λ m. by_ref acc_a (logic m bit_or)))
      ∷ entry 0xaa "oraa" 2 4 idx (with_get memory (λ m. by_ref acc_a (logic m bit_or)))
      ∷ entry 0xba "oraa" 3 4 ext (with_get memory (λ m. by_ref acc_a (logic m bit_or)))
      ∷ entry 0xca "orab" 2 2 imm (λ d. by_ref acc_b (logic (u8 d) bit_or))
      ∷ entry 0xda "orab" 2 3 dir (with_get memory (λ m. by_ref acc_b (logic m bit_or)))
      ∷ entry 0xea "orab" 2 4 idx (with_get memory (λ m. by_ref acc_b (logic m bit_or)))
      ∷ entry 0xfa "orab" 3 4 ext (with_get memory (λ m. by_ref acc_b (logic m bit_or)))
      ∷ entry 0x8b "adda" 2 2 imm (λ d. by_ref acc_a (λ r. add r false (u8 d)))
      ∷ entry 0x9b "adda" 2 3 dir (with_get memory (λ m. by_ref acc_a (λ r. add r false m)))
      ∷ entry 0xab "adda" 2 4 idx (with_get memory (λ m. by_ref acc_a (λ r. add r false m)))
      ∷ entry 0xbb "adda" 3 4 ext (with_get memory (λ m. by_ref acc_a (λ r. add r false m)))
      ∷ entry 0xcb "addb" 2 2 imm (λ d. by_ref acc_b (λ r. add r false (u8 d)))
      ∷ entry 0xdb "addb" 2 3 dir (with_get memory (λ m. by_ref acc_b (λ r. add r false m)))
      ∷ entry 0xeb "addb" 2 4 idx (with_get memory (λ m. by_ref acc_b (λ r. add r false m)))
      ∷ entry 0xfb "addb" 3 4 ext (with_get memory (λ m. by_ref acc_b (λ r. add r false m)))
      ∷ []
