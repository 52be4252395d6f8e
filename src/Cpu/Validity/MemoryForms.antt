-- ===== src/Cpu/Validity/MemoryForms.antt =====
-- The forms of an `exec` closure that use the memory.
use hd6301_thing.Common.{ℕ, ◌+◌, ◌<◌, Bool, arith, u8, u16}
use hd6301_thing.Memory.{AddressSpace}
use hd6301_thing.Cpu.Alu.{logic}
use hd6301_thing.Cpu.State.{Cpu, Accumulator, get_acc, on_flags}
use hd6301_thing.Cpu.Access.{get, get16, fetch, pul8, pul16, logic_m}
use hd6301_thing.Cpu.Instruction.{
  with_get, with_get16, with_pul8, with_pul16, store, store16, logic_idx, logic_dir,
}
use hd6301_thing.Cpu.Validity.{IsByteSpace, IsValid, Keeps}
use hd6301_thing.Cpu.Validity.Operations.{KeepsBytes, logic-KeepsByte}
use hd6301_thing.Cpu.Validity.Access.{
  get-Gives, get16-Gives, fetch-Gives, pul8-Gives, pul16-Gives, set-IsValid, set16-IsValid,
  mem_op-IsValid,
}
use hd6301_thing.Cpu.Validity.Forms.{Takes, get_acc-lt}

module _ {W : Type 0} (m : AddressSpace W) (Ok : W → Type 0) (space : IsByteSpace m Ok) where
  pub with_get-Keeps : (f : ℕ → Cpu W → Cpu W) → Takes Ok 256 f → Keeps Ok (with_get m f)
  unfolding with_get
  with_get-Keeps f h d c k v =
      let r = get-Gives m Ok space d c v in h (get m d c).0 (get m d c).1 r.0 r.1

  pub with_get16-Keeps : (f : ℕ → Cpu W → Cpu W) → Keeps Ok f → Keeps Ok (with_get16 m f)
  unfolding with_get16
  with_get16-Keeps f h d c k v =
      let r = get16-Gives m Ok space d c v in h (get16 m d c).0 (get16 m d c).1 r.0 r.1

  pub with_pul8-IsValid :
      (f : ℕ → Cpu W → Cpu W)
      → Takes Ok 256 f
      → (c : Cpu W) → IsValid Ok c
      → IsValid Ok (with_pul8 m f c)
  unfolding with_pul8
  with_pul8-IsValid f h c v =
      let r = pul8-Gives m Ok space c v in h (pul8 m c).0 (pul8 m c).1 r.0 r.1

  pub with_pul16-IsValid :
      (f : ℕ → Cpu W → Cpu W)
      → Keeps Ok f
      → (c : Cpu W) → IsValid Ok c
      → IsValid Ok (with_pul16 m f c)
  unfolding with_pul16
  with_pul16-IsValid f h c v =
      let r = pul16-Gives m Ok space c v in h (pul16 m c).0 (pul16 m c).1 r.0 r.1

  pub store-Keeps : (r : Accumulator) → Keeps Ok (store m r)
  unfolding store on_flags
  store-Keeps r d c h v = set-IsValid m Ok space d (get_acc r c) c (get_acc-lt Ok r c v) v

  pub store16-Keeps : (value : Cpu W → ℕ) → Keeps Ok (store16 m value)
  unfolding store16 on_flags
  store16-Keeps value d c h v = set16-IsValid m Ok space d (value c) c v

  logic_m-IsValid :
      (p d : ℕ) (op : ℕ → ℕ → ℕ) (do_set : Bool) (c : Cpu W)
      → d < 256
      → KeepsBytes op
      → IsValid Ok c
      → IsValid Ok (logic_m m p d op do_set c)
  unfolding logic_m
  logic_m-IsValid p d op do_set c h k v =
      mem_op-IsValid m Ok space p (logic d op) do_set c (logic-KeepsByte d op h k) v

  pub logic_idx-Keeps :
      (op : ℕ → ℕ → ℕ) (do_set : Bool) → KeepsBytes op → Keeps Ok (logic_idx m op do_set)
  unfolding logic_idx
  logic_idx-Keeps op do_set k d c h v =
      let r = fetch-Gives m Ok space c v in
      let (p, c1) = fetch m c in
      logic_m-IsValid (u16 (c1.x + p)) (u8 d) op do_set c1 (omega arith) k r.1

  pub logic_dir-Keeps :
      (op : ℕ → ℕ → ℕ) (do_set : Bool) → KeepsBytes op → Keeps Ok (logic_dir m op do_set)
  unfolding logic_dir
  logic_dir-Keeps op do_set k d c h v =
      let r = fetch-Gives m Ok space c v in
      let (p, c1) = fetch m c in logic_m-IsValid p (u8 d) op do_set c1 (omega arith) k r.1
