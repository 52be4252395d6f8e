-- ===== src/Cpu/Access.antt =====
-- Memory helpers, the stack, and what the processor does with them (emulator/cpu6301.cc). `memory`
-- is the address space that the constructor is given.
use hd6301_thing.Common.{ℕ, ◌+◌, Bool, true, if◌then◌else◌, u8, u16, sub16, ◌>>>◌}
use hd6301_thing.Memory
use hd6301_thing.Memory.{AddressSpace}
use hd6301_thing.Cpu.Alu.{StatusRegister, from_integer, as_integer, logic}
use hd6301_thing.Cpu.State.{Cpu, sign_extend}

module _ {W : Type 0} (memory : AddressSpace W) where
  unfoldable pub get : ℕ → Cpu W → ℕ × Cpu W
  get address c = let (v, w) = Memory.get memory address c.world in (v, record c { world = w })

  unfoldable pub get16 : ℕ → Cpu W → ℕ × Cpu W
  get16 address c = let (v, w) = Memory.get16 memory address c.world in (v, record c { world = w })

  unfoldable pub set : ℕ → ℕ → Cpu W → Cpu W
  set address value c = record c { world = Memory.set memory address value c.world }

  unfoldable pub set16 : ℕ → ℕ → Cpu W → Cpu W
  set16 address value c = record c { world = Memory.set16 memory address value c.world }

  unfoldable pub fetch : Cpu W → ℕ × Cpu W
  unfolding get
  fetch c = let (v, c1) = get c.pc c in (v, record c1 { pc = u16 (c1.pc + 1) })

  unfoldable pub fetch16 : Cpu W → ℕ × Cpu W
  unfolding get16
  fetch16 c = let (v, c1) = get16 c.pc c in (v, record c1 { pc = u16 (c1.pc + 2) })

  unfoldable pub reset : Cpu W → Cpu W
  unfolding get16
  reset c = let (v, c1) = get16 0xfffe c in record c1 { pc = v }

  unfoldable pub pul8 : Cpu W → ℕ × Cpu W
  unfolding get
  pul8 c = let sp' = u16 (c.sp + 1) in get sp' (record c { sp = sp' })

  unfoldable pub pul16 : Cpu W → ℕ × Cpu W
  unfolding get16
  pul16 c = let sp' = u16 (c.sp + 2) in get16 (sub16 sp' 1) (record c { sp = sp' })

  unfoldable pub psh8 : ℕ → Cpu W → Cpu W
  unfolding set
  psh8 value c = record (set c.sp value c) { sp = sub16 c.sp 1 }

  -- The low byte goes to `sp`, the high byte below it.
  unfoldable pub psh16 : ℕ → Cpu W → Cpu W
  unfolding set
  psh16 value c =
      let c1 = set (sub16 c.sp 1) (u8 (value >>> 8)) (set c.sp (u8 value) c) in
      record c1 { sp = sub16 c.sp 2 }

  unfoldable pub rti : Cpu W → Cpu W
  unfolding pul8 pul16
  rti c =
      let (new_sr, c1) = pul8 c in
      let (b', c2) = pul8 (record c1 { sr = from_integer new_sr }) in
      let (a', c3) = pul8 (record c2 { b = b' }) in
      let (x', c4) = pul16 (record c3 { a = a' }) in
      let (pc', c5) = pul16 (record c4 { x = x' }) in record c5 { pc = pc' }

  unfoldable pub bsr : ℕ → Cpu W → Cpu W
  unfolding psh16 sign_extend
  bsr offset c = let c1 = psh16 c.pc c in record c1 { pc = u16 (c1.pc + sign_extend offset) }

  unfoldable pub jsr : ℕ → Cpu W → Cpu W
  unfolding psh16
  jsr address c = record (psh16 c.pc c) { pc = address }

  -- The nine cycles are in `enter_interrupt_cycles`.
  unfoldable pub enter_interrupt : ℕ → Cpu W → Cpu W
  unfolding psh8 psh16 get16
  enter_interrupt vector c =
      let c1 = psh16 c.pc c in
      let c2 = psh16 c1.x c1 in
      let c3 = psh8 c2.a c2 in
      let c4 = psh8 c3.b c3 in
      let c5 = psh8 (as_integer c4.sr) c4 in
      let (pc', c6) = get16 vector (record c5 { sr = record (c5.sr) { i = true } }) in
      record c6 { pc = pc' }

  -- Read, change, and write back if `do_set`.
  unfoldable pub mem_op : ℕ → (ℕ → StatusRegister → ℕ × StatusRegister) → Bool → Cpu W → Cpu W
  unfolding get set
  mem_op address op do_set c =
      let (v, c1) = get address c in
      let (r, s) = op v c1.sr in
      let c2 = record c1 { sr = s } in if do_set then set address r c2 else c2

  -- `op` is given an uninitialised byte, which `clr` does not read.
  unfoldable pub set_op : ℕ → ℕ → (ℕ → StatusRegister → ℕ × StatusRegister) → Cpu W → Cpu W
  unfolding set
  set_op uninitialised address op c =
      let (r, s) = op uninitialised c.sr in set address r (record c { sr = s })

  unfoldable pub logic_m : ℕ → ℕ → (ℕ → ℕ → ℕ) → Bool → Cpu W → Cpu W
  unfolding mem_op
  logic_m address value op do_set c = mem_op address (logic value op) do_set c

-- Cycles that `enter_interrupt` returns.
abbrev pub enter_interrupt_cycles : ℕ
enter_interrupt_cycles = 9
