-- ===== src/Cpu/Validity/Table/Inherent.antt =====
-- Every `exec` closure of Cpu/Table/Inherent keeps the registers within their types.
use hd6301_thing.Common.{true, false, not, arith, All, ◌▹◌, u8}
use hd6301_thing.Memory.{AddressSpace}
use hd6301_thing.Cpu.Alu.{sub, add}
use hd6301_thing.Cpu.State.{acc_a, acc_b, set_acc, by_ref, on_flags}
use hd6301_thing.Cpu.Instruction.{is_bhi, is_bls, is_bge, is_blt, is_bgt, is_ble, compare, load}
use hd6301_thing.Cpu.Table.Inherent.{register_entries, branch_entries, stack_entries}
use hd6301_thing.Cpu.Validity.{IsByteSpace, Keep}
use hd6301_thing.Cpu.Validity.Access.{psh8-IsValid, psh16-IsValid, rti-IsValid}
use hd6301_thing.Cpu.Validity.Forms.{
  byte-Keeps, set_acc-Takes, sub-Takes, add-Takes, load-Takes, compare-Takes, lsrd-Takes,
  asld-Takes, brx-Takes, branch-Takes, add_z-IsValid, xgdx-IsValid, mul-IsValid, tap-IsValid,
  tpa-IsValid,
}
use hd6301_thing.Cpu.Validity.MemoryForms.{with_pul8-IsValid, with_pul16-IsValid}

module _ {W : Type 0} (memory : AddressSpace W) (Ok : W → Type 0)
    (space : IsByteSpace memory Ok) where
  pub register_entries-Keeps : All (Keep Ok) (register_entries memory)
  unfolding on_flags
  register_entries-Keeps =
      (λ d c h v. v)
      ▹ lsrd-Takes Ok
      ▹ asld-Takes Ok
      ▹ (λ d c h v. tap-IsValid Ok c v)
      ▹ (λ d c h v. tpa-IsValid Ok c v)
      ▹ (λ d c h v. add_z-IsValid Ok 1 c v)
      ▹ (λ d c h v. add_z-IsValid Ok 0xffff c v)
      ▹ (λ d c h v. v)
      ▹ (λ d c h v. v)
      ▹ (λ d c h v. v)
      ▹ (λ d c h v. v)
      ▹ (λ d c h v. v)
      ▹ (λ d c h v. v)
      ▹ byte-Keeps Ok (λ m. by_ref acc_a (λ r. sub r m)) (sub-Takes Ok acc_a)
      ▹ byte-Keeps Ok (compare acc_a) (compare-Takes Ok acc_a)
      ▹ byte-Keeps Ok (load acc_b) (load-Takes Ok acc_b)
      ▹ byte-Keeps Ok (load acc_a) (load-Takes Ok acc_a)
      ▹ (λ d c h v. xgdx-IsValid Ok c v)
      ▹ byte-Keeps Ok (λ m. by_ref acc_a (λ r. add r false m)) (add-Takes Ok acc_a)
      ▹ tt

  pub branch_entries-Keeps : All (Keep Ok) (branch_entries memory)
  branch_entries-Keeps =
      brx-Takes Ok true
      ▹ brx-Takes Ok false
      ▹ branch-Takes Ok is_bhi
      ▹ branch-Takes Ok is_bls
      ▹ branch-Takes Ok (λ s. not s.c)
      ▹ branch-Takes Ok (λ s. s.c)
      ▹ branch-Takes Ok (λ s. not s.z)
      ▹ branch-Takes Ok (λ s. s.z)
      ▹ branch-Takes Ok (λ s. not s.v)
      ▹ branch-Takes Ok (λ s. s.v)
      ▹ branch-Takes Ok (λ s. not s.n)
      ▹ branch-Takes Ok (λ s. s.n)
      ▹ branch-Takes Ok is_bge
      ▹ branch-Takes Ok is_blt
      ▹ branch-Takes Ok is_bgt
      ▹ branch-Takes Ok is_ble
      ▹ tt

  pub stack_entries-Keeps : All (Keep Ok) (stack_entries memory)
  stack_entries-Keeps =
      (λ d c h v. ground arith)
      ▹ (λ d c h v. ground arith)
      ▹ (λ d c h v. with_pul8-IsValid memory Ok space (set_acc acc_a) (set_acc-Takes Ok acc_a) c v)
      ▹ (λ d c h v. with_pul8-IsValid memory Ok space (set_acc acc_b) (set_acc-Takes Ok acc_b) c v)
      ▹ (λ d c h v. ground arith)
      ▹ (λ d c h v. ground arith)
      ▹ (λ d c h v. psh8-IsValid memory Ok space (u8 d) c (omega arith) v)
      ▹ (λ d c h v. psh8-IsValid memory Ok space (u8 d) c (omega arith) v)
      ▹ (λ d c h v.
          with_pul16-IsValid memory Ok space (λ v c. record c { x = v }) (λ d c h v. ground arith) c
            v)
      ▹ (λ d c h v.
          with_pul16-IsValid memory Ok space (λ v c. record c { pc = v }) (λ d c h v. ground arith)
            c v)
      ▹ (λ d c h v. ground arith)
      ▹ (λ d c h v. rti-IsValid memory Ok space c v)
      ▹ (λ d c h v. psh16-IsValid memory Ok space c.x c v)
      ▹ (λ d c h v. mul-IsValid Ok c v)
      ▹ tt
