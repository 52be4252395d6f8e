-- ===== src/Cpu/Validity/Table/Accumulator.antt =====
-- Every `exec` closure of Cpu/Table/Accumulator keeps the registers within their types.
use hd6301_thing.Common.{false, All, ◌▹◌, bit_and, bit_or, bit_xor}
use hd6301_thing.Memory.{AddressSpace}
use hd6301_thing.Cpu.Alu.{add, logic}
use hd6301_thing.Cpu.State.{acc_a, acc_b, by_ref}
use hd6301_thing.Cpu.Instruction.{adc, load, bit_test}
use hd6301_thing.Cpu.Table.Accumulator.{
  and_entries, transfer_entries, eor_adc_entries, ora_add_entries,
}
use hd6301_thing.Cpu.Validity.{IsByteSpace, Keep}
use hd6301_thing.Cpu.Validity.Operations.{and-KeepsBytes, or-KeepsBytes, xor-KeepsBytes}
use hd6301_thing.Cpu.Validity.Forms.{
  byte-Keeps, add-Takes, adc-Takes, logic-Takes, load-Takes, bit_test-Takes,
}
use hd6301_thing.Cpu.Validity.MemoryForms.{with_get-Keeps, store-Keeps}

module _ {W : Type 0} (memory : AddressSpace W) (Ok : W → Type 0)
    (space : IsByteSpace memory Ok) where
  pub and_entries-Keeps : All (Keep Ok) (and_entries memory)
  and_entries-Keeps =
      byte-Keeps Ok (λ m. by_ref acc_a (logic m bit_and))
        (logic-Takes Ok acc_a bit_and and-KeepsBytes)
      ▹ with_get-Keeps memory Ok space (λ m. by_ref acc_a (logic m bit_and))
          (logic-Takes Ok acc_a bit_and and-KeepsBytes)
      ▹ with_get-Keeps memory Ok space (λ m. by_ref acc_a (logic m bit_and))
          (logic-Takes Ok acc_a bit_and and-KeepsBytes)
      ▹ with_get-Keeps memory Ok space (λ m. by_ref acc_a (logic m bit_and))
          (logic-Takes Ok acc_a bit_and and-KeepsBytes)
      ▹ byte-Keeps Ok (λ m. by_ref acc_b (logic m bit_and))
          (logic-Takes Ok acc_b bit_and and-KeepsBytes)
      ▹ with_get-Keeps memory Ok space (λ m. by_ref acc_b (logic m bit_and))
          (logic-Takes Ok acc_b bit_and and-KeepsBytes)
      ▹ with_get-Keeps memory Ok space (λ m. by_ref acc_b (logic m bit_and))
          (logic-Takes Ok acc_b bit_and and-KeepsBytes)
      ▹ with_get-Keeps memory Ok space (λ m. by_ref acc_b (logic m bit_and))
          (logic-Takes Ok acc_b bit_and and-KeepsBytes)
      ▹ bit_test-Takes Ok acc_a
      ▹ with_get-Keeps memory Ok space (bit_test acc_a) (bit_test-Takes Ok acc_a)
      ▹ with_get-Keeps memory Ok space (bit_test acc_a) (bit_test-Takes Ok acc_a)
      ▹ with_get-Keeps memory Ok space (bit_test acc_a) (bit_test-Takes Ok acc_a)
      ▹ bit_test-Takes Ok acc_b
      ▹ with_get-Keeps memory Ok space (bit_test acc_b) (bit_test-Takes Ok acc_b)
      ▹ with_get-Keeps memory Ok space (bit_test acc_b) (bit_test-Takes Ok acc_b)
      ▹ with_get-Keeps memory Ok space (bit_test acc_b) (bit_test-Takes Ok acc_b)
      ▹ tt

  pub transfer_entries-Keeps : All (Keep Ok) (transfer_entries memory)
  transfer_entries-Keeps =
      byte-Keeps Ok (load acc_a) (load-Takes Ok acc_a)
      ▹ with_get-Keeps memory Ok space (load acc_a) (load-Takes Ok acc_a)
      ▹ with_get-Keeps memory Ok space (load acc_a) (load-Takes Ok acc_a)
      ▹ with_get-Keeps memory Ok space (load acc_a) (load-Takes Ok acc_a)
      ▹ byte-Keeps Ok (load acc_b) (load-Takes Ok acc_b)
      ▹ with_get-Keeps memory Ok space (load acc_b) (load-Takes Ok acc_b)
      ▹ with_get-Keeps memory Ok space (load acc_b) (load-Takes Ok acc_b)
      ▹ with_get-Keeps memory Ok space (load acc_b) (load-Takes Ok acc_b)
      ▹ store-Keeps memory Ok space acc_a
      ▹ store-Keeps memory Ok space acc_a
      ▹ store-Keeps memory Ok space acc_a
      ▹ store-Keeps memory Ok space acc_b
      ▹ store-Keeps memory Ok space acc_b
      ▹ store-Keeps memory Ok space acc_b
      ▹ tt

  pub eor_adc_entries-Keeps : All (Keep Ok) (eor_adc_entries memory)
  eor_adc_entries-Keeps =
      byte-Keeps Ok (λ m. by_ref acc_a (logic m bit_xor))
        (logic-Takes Ok acc_a bit_xor xor-KeepsBytes)
      ▹ with_get-Keeps memory Ok space (λ m. by_ref acc_a (logic m bit_xor))
          (logic-Takes Ok acc_a bit_xor xor-KeepsBytes)
      ▹ with_get-Keeps memory Ok space (λ m. by_ref acc_a (logic m bit_xor))
          (logic-Takes Ok acc_a bit_xor xor-KeepsBytes)
      ▹ with_get-Keeps memory Ok space (λ m. by_ref acc_a (logic m bit_xor))
          (logic-Takes Ok acc_a bit_xor xor-KeepsBytes)
      ▹ byte-Keeps Ok (λ m. by_ref acc_b (logic m bit_xor))
          (logic-Takes Ok acc_b bit_xor xor-KeepsBytes)
      ▹ with_get-Keeps memory Ok space (λ m. by_ref acc_b (logic m bit_xor))
          (logic-Takes Ok acc_b bit_xor xor-KeepsBytes)
      ▹ with_get-Keeps memory Ok space (λ m. by_ref acc_b (logic m bit_xor))
          (logic-Takes Ok acc_b bit_xor xor-KeepsBytes)
      ▹ with_get-Keeps memory Ok space (λ m. by_ref acc_b (logic m bit_xor))
          (logic-Takes Ok acc_b bit_xor xor-KeepsBytes)
      ▹ byte-Keeps Ok (λ m. by_ref acc_a (λ r. adc r m)) (adc-Takes Ok acc_a)
      ▹ with_get-Keeps memory Ok space (λ m. by_ref acc_a (λ r. adc r m)) (adc-Takes Ok acc_a)
      ▹ with_get-Keeps memory Ok space (λ m. by_ref acc_a (λ r. adc r m)) (adc-Takes Ok acc_a)
      ▹ with_get-Keeps memory Ok space (λ m. by_ref acc_a (λ r. adc r m)) (adc-Takes Ok acc_a)
      ▹ byte-Keeps Ok (λ m. by_ref acc_b (λ r. adc r m)) (adc-Takes Ok acc_b)
      ▹ with_get-Keeps memory Ok space (λ m. by_ref acc_b (λ r. adc r m)) (adc-Takes Ok acc_b)
      ▹ with_get-Keeps memory Ok space (λ m. by_ref acc_b (λ r. adc r m)) (adc-Takes Ok acc_b)
      ▹ with_get-Keeps memory Ok space (λ m. by_ref acc_b (λ r. adc r m)) (adc-Takes Ok acc_b)
      ▹ tt

  pub ora_add_entries-Keeps : All (Keep Ok) (ora_add_entries memory)
  ora_add_entries-Keeps =
      byte-Keeps Ok (λ m. by_ref acc_a (logic m bit_or)) (logic-Takes Ok acc_a bit_or or-KeepsBytes)
      ▹ with_get-Keeps memory Ok space (λ m. by_ref acc_a (logic m bit_or))
          (logic-Takes Ok acc_a bit_or or-KeepsBytes)
      ▹ with_get-Keeps memory Ok space (λ m. by_ref acc_a (logic m bit_or))
          (logic-Takes Ok acc_a bit_or or-KeepsBytes)
      ▹ with_get-Keeps memory Ok space (λ m. by_ref acc_a (logic m bit_or))
          (logic-Takes Ok acc_a bit_or or-KeepsBytes)
      ▹ byte-Keeps Ok (λ m. by_ref acc_b (logic m bit_or))
          (logic-Takes Ok acc_b bit_or or-KeepsBytes)
      ▹ with_get-Keeps memory Ok space (λ m. by_ref acc_b (logic m bit_or))
          (logic-Takes Ok acc_b bit_or or-KeepsBytes)
      ▹ with_get-Keeps memory Ok space (λ m. by_ref acc_b (logic m bit_or))
          (logic-Takes Ok acc_b bit_or or-KeepsBytes)
      ▹ with_get-Keeps memory Ok space (λ m. by_ref acc_b (logic m bit_or))
          (logic-Takes Ok acc_b bit_or or-KeepsBytes)
      ▹ byte-Keeps Ok (λ m. by_ref acc_a (λ r. add r false m)) (add-Takes Ok acc_a)
      ▹ with_get-Keeps memory Ok space (λ m. by_ref acc_a (λ r. add r false m)) (add-Takes Ok acc_a)
      ▹ with_get-Keeps memory Ok space (λ m. by_ref acc_a (λ r. add r false m)) (add-Takes Ok acc_a)
      ▹ with_get-Keeps memory Ok space (λ m. by_ref acc_a (λ r. add r false m)) (add-Takes Ok acc_a)
      ▹ byte-Keeps Ok (λ m. by_ref acc_b (λ r. add r false m)) (add-Takes Ok acc_b)
      ▹ with_get-Keeps memory Ok space (λ m. by_ref acc_b (λ r. add r false m)) (add-Takes Ok acc_b)
      ▹ with_get-Keeps memory Ok space (λ m. by_ref acc_b (λ r. add r false m)) (add-Takes Ok acc_b)
      ▹ with_get-Keeps memory Ok space (λ m. by_ref acc_b (λ r. add r false m)) (add-Takes Ok acc_b)
      ▹ tt
