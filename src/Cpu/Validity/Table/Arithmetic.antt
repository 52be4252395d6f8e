-- ===== src/Cpu/Validity/Table/Arithmetic.antt =====
-- Every `exec` closure of Cpu/Table/Arithmetic keeps the registers within their types.
use hd6301_thing.Common.{All, ◌▹◌}
use hd6301_thing.Memory.{AddressSpace}
use hd6301_thing.Cpu.Alu.{sub, sbc}
use hd6301_thing.Cpu.State.{acc_a, acc_b, by_ref, subd, addd}
use hd6301_thing.Cpu.Instruction.{compare}
use hd6301_thing.Cpu.Table.Arithmetic.{subtract_entries, wide_arithmetic_entries}
use hd6301_thing.Cpu.Validity.{IsByteSpace, Keep}
use hd6301_thing.Cpu.Validity.Forms.{
  byte-Keeps, sub-Takes, sbc-Takes, compare-Takes, subd-Takes, addd-Takes,
}
use hd6301_thing.Cpu.Validity.MemoryForms.{with_get-Keeps, with_get16-Keeps}

module _ {W : Type 0} (memory : AddressSpace W) (Ok : W → Type 0)
    (space : IsByteSpace memory Ok) where
  pub subtract_entries-Keeps : All (Keep Ok) (subtract_entries memory)
  subtract_entries-Keeps =
      byte-Keeps Ok (λ m. by_ref acc_a (λ r. sub r m)) (sub-Takes Ok acc_a)
      ▹ with_get-Keeps memory Ok space (λ m. by_ref acc_a (λ r. sub r m)) (sub-Takes Ok acc_a)
      ▹ with_get-Keeps memory Ok space (λ m. by_ref acc_a (λ r. sub r m)) (sub-Takes Ok acc_a)
      ▹ with_get-Keeps memory Ok space (λ m. by_ref acc_a (λ r. sub r m)) (sub-Takes Ok acc_a)
      ▹ byte-Keeps Ok (λ m. by_ref acc_b (λ r. sub r m)) (sub-Takes Ok acc_b)
      ▹ with_get-Keeps memory Ok space (λ m. by_ref acc_b (λ r. sub r m)) (sub-Takes Ok acc_b)
      ▹ with_get-Keeps memory Ok space (λ m. by_ref acc_b (λ r. sub r m)) (sub-Takes Ok acc_b)
      ▹ with_get-Keeps memory Ok space (λ m. by_ref acc_b (λ r. sub r m)) (sub-Takes Ok acc_b)
      ▹ byte-Keeps Ok (compare acc_a) (compare-Takes Ok acc_a)
      ▹ with_get-Keeps memory Ok space (compare acc_a) (compare-Takes Ok acc_a)
      ▹ with_get-Keeps memory Ok space (compare acc_a) (compare-Takes Ok acc_a)
      ▹ with_get-Keeps memory Ok space (compare acc_a) (compare-Takes Ok acc_a)
      ▹ byte-Keeps Ok (compare acc_b) (compare-Takes Ok acc_b)
      ▹ with_get-Keeps memory Ok space (compare acc_b) (compare-Takes Ok acc_b)
      ▹ with_get-Keeps memory Ok space (compare acc_b) (compare-Takes Ok acc_b)
      ▹ with_get-Keeps memory Ok space (compare acc_b) (compare-Takes Ok acc_b)
      ▹ byte-Keeps Ok (λ m. by_ref acc_a (λ r. sbc r m)) (sbc-Takes Ok acc_a)
      ▹ with_get-Keeps memory Ok space (λ m. by_ref acc_a (λ r. sbc r m)) (sbc-Takes Ok acc_a)
      ▹ with_get-Keeps memory Ok space (λ m. by_ref acc_a (λ r. sbc r m)) (sbc-Takes Ok acc_a)
      ▹ with_get-Keeps memory Ok space (λ m. by_ref acc_a (λ r. sbc r m)) (sbc-Takes Ok acc_a)
      ▹ byte-Keeps Ok (λ m. by_ref acc_b (λ r. sbc r m)) (sbc-Takes Ok acc_b)
      ▹ with_get-Keeps memory Ok space (λ m. by_ref acc_b (λ r. sbc r m)) (sbc-Takes Ok acc_b)
      ▹ with_get-Keeps memory Ok space (λ m. by_ref acc_b (λ r. sbc r m)) (sbc-Takes Ok acc_b)
      ▹ with_get-Keeps memory Ok space (λ m. by_ref acc_b (λ r. sbc r m)) (sbc-Takes Ok acc_b)
      ▹ tt

  pub wide_arithmetic_entries-Keeps : All (Keep Ok) (wide_arithmetic_entries memory)
  wide_arithmetic_entries-Keeps =
      subd-Takes Ok
      ▹ with_get16-Keeps memory Ok space subd (subd-Takes Ok)
      ▹ with_get16-Keeps memory Ok space subd (subd-Takes Ok)
      ▹ with_get16-Keeps memory Ok space subd (subd-Takes Ok)
      ▹ addd-Takes Ok
      ▹ with_get16-Keeps memory Ok space addd (addd-Takes Ok)
      ▹ with_get16-Keeps memory Ok space addd (addd-Takes Ok)
      ▹ with_get16-Keeps memory Ok space addd (addd-Takes Ok)
      ▹ tt
