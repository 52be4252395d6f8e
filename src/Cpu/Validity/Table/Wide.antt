-- ===== src/Cpu/Validity/Table/Wide.antt =====
-- Every `exec` closure of Cpu/Table/Wide keeps the registers within their types.
use hd6301_thing.Common.{All, ◌▹◌, u8}
use hd6301_thing.Memory.{AddressSpace}
use hd6301_thing.Cpu.State.{get_d}
use hd6301_thing.Cpu.Instruction.{compare_x, load_d, load_sp, load_x}
use hd6301_thing.Cpu.Table.Wide.{load_entries, store_entries}
use hd6301_thing.Cpu.Validity.{IsByteSpace, Keep}
use hd6301_thing.Cpu.Validity.Access.{bsr-IsValid, jsr-IsValid}
use hd6301_thing.Cpu.Validity.Forms.{load_d-Takes, load_sp-Takes, load_x-Takes, compare_x-Takes}
use hd6301_thing.Cpu.Validity.MemoryForms.{with_get16-Keeps, store16-Keeps}

module _ {W : Type 0} (memory : AddressSpace W) (Ok : W → Type 0)
    (space : IsByteSpace memory Ok) where
  pub load_entries-Keeps : All (Keep Ok) (load_entries memory)
  load_entries-Keeps =
      compare_x-Takes Ok
      ▹ with_get16-Keeps memory Ok space compare_x (compare_x-Takes Ok)
      ▹ with_get16-Keeps memory Ok space compare_x (compare_x-Takes Ok)
      ▹ with_get16-Keeps memory Ok space compare_x (compare_x-Takes Ok)
      ▹ load_d-Takes Ok
      ▹ with_get16-Keeps memory Ok space load_d (load_d-Takes Ok)
      ▹ with_get16-Keeps memory Ok space load_d (load_d-Takes Ok)
      ▹ with_get16-Keeps memory Ok space load_d (load_d-Takes Ok)
      ▹ (λ d c h v. bsr-IsValid memory Ok space (u8 d) c v)
      ▹ (λ d c h v. jsr-IsValid memory Ok space d c h v)
      ▹ (λ d c h v. jsr-IsValid memory Ok space d c h v)
      ▹ (λ d c h v. jsr-IsValid memory Ok space d c h v)
      ▹ tt

  pub store_entries-Keeps : All (Keep Ok) (store_entries memory)
  store_entries-Keeps =
      store16-Keeps memory Ok space get_d
      ▹ store16-Keeps memory Ok space get_d
      ▹ store16-Keeps memory Ok space get_d
      ▹ load_sp-Takes Ok
      ▹ with_get16-Keeps memory Ok space load_sp (load_sp-Takes Ok)
      ▹ with_get16-Keeps memory Ok space load_sp (load_sp-Takes Ok)
      ▹ with_get16-Keeps memory Ok space load_sp (load_sp-Takes Ok)
      ▹ load_x-Takes Ok
      ▹ with_get16-Keeps memory Ok space load_x (load_x-Takes Ok)
      ▹ with_get16-Keeps memory Ok space load_x (load_x-Takes Ok)
      ▹ with_get16-Keeps memory Ok space load_x (load_x-Takes Ok)
      ▹ store16-Keeps memory Ok space (λ c. c.sp)
      ▹ store16-Keeps memory Ok space (λ c. c.sp)
      ▹ store16-Keeps memory Ok space (λ c. c.sp)
      ▹ store16-Keeps memory Ok space (λ c. c.x)
      ▹ store16-Keeps memory Ok space (λ c. c.x)
      ▹ store16-Keeps memory Ok space (λ c. c.x)
      ▹ tt
