-- ===== src/Cpu/Validity/Table/Modify.antt =====
-- Every `exec` closure of Cpu/Table/Modify keeps the registers within their types.
use hd6301_thing.Common.{true, false, arith, All, ◌▹◌, bit_and, bit_or, bit_xor}
use hd6301_thing.Memory.{AddressSpace}
use hd6301_thing.Cpu.Alu.{lsr, ror, rol, asr, asl, dec, inc, clr, neg, complement, cmp}
use hd6301_thing.Cpu.State.{acc_a, acc_b, on_flags}
use hd6301_thing.Cpu.Table.Modify.{complement_entries, shift_entries, count_entries}
use hd6301_thing.Cpu.Validity.{IsByteSpace, Keep}
use hd6301_thing.Cpu.Validity.Operations.{
  and-KeepsBytes, or-KeepsBytes, xor-KeepsBytes, neg-KeepsByte, complement-KeepsByte, lsr-KeepsByte,
  ror-KeepsByte, rol-KeepsByte, asr-KeepsByte, asl-KeepsByte, dec-KeepsByte, inc-KeepsByte,
  clr-KeepsByte,
}
use hd6301_thing.Cpu.Validity.Access.{mem_op-IsValid, set_op-IsValid}
use hd6301_thing.Cpu.Validity.Forms.{by_ref-IsValid}
use hd6301_thing.Cpu.Validity.MemoryForms.{with_get-Keeps, logic_idx-Keeps, logic_dir-Keeps}

module _ {W : Type 0} (memory : AddressSpace W) (Ok : W → Type 0)
    (space : IsByteSpace memory Ok) where
  pub complement_entries-Keeps : All (Keep Ok) (complement_entries memory)
  complement_entries-Keeps =
      (λ d c h v. by_ref-IsValid Ok acc_a neg neg-KeepsByte c v)
      ▹ (λ d c h v. by_ref-IsValid Ok acc_b neg neg-KeepsByte c v)
      ▹ (λ d c h v. mem_op-IsValid memory Ok space d neg true c neg-KeepsByte v)
      ▹ (λ d c h v. mem_op-IsValid memory Ok space d neg true c neg-KeepsByte v)
      ▹ logic_idx-Keeps memory Ok space bit_and true and-KeepsBytes
      ▹ logic_dir-Keeps memory Ok space bit_and true and-KeepsBytes
      ▹ logic_idx-Keeps memory Ok space bit_or true or-KeepsBytes
      ▹ logic_dir-Keeps memory Ok space bit_or true or-KeepsBytes
      ▹ logic_idx-Keeps memory Ok space bit_xor true xor-KeepsBytes
      ▹ logic_dir-Keeps memory Ok space bit_xor true xor-KeepsBytes
      ▹ logic_idx-Keeps memory Ok space bit_and false and-KeepsBytes
      ▹ logic_dir-Keeps memory Ok space bit_and false and-KeepsBytes
      ▹ (λ d c h v. by_ref-IsValid Ok acc_a complement complement-KeepsByte c v)
      ▹ (λ d c h v. by_ref-IsValid Ok acc_b complement complement-KeepsByte c v)
      ▹ (λ d c h v. mem_op-IsValid memory Ok space d complement true c complement-KeepsByte v)
      ▹ (λ d c h v. mem_op-IsValid memory Ok space d complement true c complement-KeepsByte v)
      ▹ tt

  pub shift_entries-Keeps : All (Keep Ok) (shift_entries memory)
  shift_entries-Keeps =
      (λ d c h v. by_ref-IsValid Ok acc_a lsr lsr-KeepsByte c v)
      ▹ (λ d c h v. by_ref-IsValid Ok acc_b lsr lsr-KeepsByte c v)
      ▹ (λ d c h v. mem_op-IsValid memory Ok space d lsr true c lsr-KeepsByte v)
      ▹ (λ d c h v. mem_op-IsValid memory Ok space d lsr true c lsr-KeepsByte v)
      ▹ (λ d c h v. by_ref-IsValid Ok acc_a ror ror-KeepsByte c v)
      ▹ (λ d c h v. by_ref-IsValid Ok acc_b ror ror-KeepsByte c v)
      ▹ (λ d c h v. mem_op-IsValid memory Ok space d ror true c ror-KeepsByte v)
      ▹ (λ d c h v. mem_op-IsValid memory Ok space d ror true c ror-KeepsByte v)
      ▹ (λ d c h v. by_ref-IsValid Ok acc_a asr asr-KeepsByte c v)
      ▹ (λ d c h v. by_ref-IsValid Ok acc_b asr asr-KeepsByte c v)
      ▹ (λ d c h v. mem_op-IsValid memory Ok space d asr true c asr-KeepsByte v)
      ▹ (λ d c h v. mem_op-IsValid memory Ok space d asr true c asr-KeepsByte v)
      ▹ (λ d c h v. by_ref-IsValid Ok acc_a asl asl-KeepsByte c v)
      ▹ (λ d c h v. by_ref-IsValid Ok acc_b asl asl-KeepsByte c v)
      ▹ (λ d c h v. mem_op-IsValid memory Ok space d asl true c asl-KeepsByte v)
      ▹ (λ d c h v. mem_op-IsValid memory Ok space d asl true c asl-KeepsByte v)
      ▹ (λ d c h v. by_ref-IsValid Ok acc_a rol rol-KeepsByte c v)
      ▹ (λ d c h v. by_ref-IsValid Ok acc_b rol rol-KeepsByte c v)
      ▹ (λ d c h v. mem_op-IsValid memory Ok space d rol true c rol-KeepsByte v)
      ▹ (λ d c h v. mem_op-IsValid memory Ok space d rol true c rol-KeepsByte v)
      ▹ tt

  pub count_entries-Keeps : All (Keep Ok) (count_entries memory)
  unfolding on_flags
  count_entries-Keeps =
      (λ d c h v. by_ref-IsValid Ok acc_a dec dec-KeepsByte c v)
      ▹ (λ d c h v. by_ref-IsValid Ok acc_b dec dec-KeepsByte c v)
      ▹ (λ d c h v. mem_op-IsValid memory Ok space d dec true c dec-KeepsByte v)
      ▹ (λ d c h v. mem_op-IsValid memory Ok space d dec true c dec-KeepsByte v)
      ▹ (λ d c h v. by_ref-IsValid Ok acc_a inc inc-KeepsByte c v)
      ▹ (λ d c h v. by_ref-IsValid Ok acc_b inc inc-KeepsByte c v)
      ▹ (λ d c h v. mem_op-IsValid memory Ok space d inc true c inc-KeepsByte v)
      ▹ (λ d c h v. mem_op-IsValid memory Ok space d inc true c inc-KeepsByte v)
      ▹ (λ d c h v. v)
      ▹ (λ d c h v. v)
      ▹ with_get-Keeps memory Ok space (λ m. on_flags (cmp m 0)) (λ d c h v. v)
      ▹ with_get-Keeps memory Ok space (λ m. on_flags (cmp m 0)) (λ d c h v. v)
      ▹ (λ d c h v. ground arith)
      ▹ (λ d c h v. ground arith)
      ▹ (λ d c h v. by_ref-IsValid Ok acc_a clr clr-KeepsByte c v)
      ▹ (λ d c h v. by_ref-IsValid Ok acc_b clr clr-KeepsByte c v)
      ▹ (λ d c h v. set_op-IsValid memory Ok space 0 d clr c (omega arith) clr-KeepsByte v)
      ▹ (λ d c h v. set_op-IsValid memory Ok space 0 d clr c (omega arith) clr-KeepsByte v)
      ▹ tt
