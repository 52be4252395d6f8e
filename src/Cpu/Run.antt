-- ===== src/Cpu/Run.antt =====
-- `Cpu6301::tick`: interrupts, breakpoints, cycles and the fetch-execute loop
-- (emulator/cpu6301.cc).
pub mod Cycles
pub mod Keeps
use hd6301_thing.Common.{
  ℕ, zero, suc, ◌+◌, ◌%◌, Bool, true, false, not, ◌&&◌, Option, none, some, List, [], ◌∷◌, flatten,
  ltb, ◌==◌, if◌then◌else◌,
}
use hd6301_thing.Memory.{AddressSpace}
use hd6301_thing.Cpu.State.{Cpu}
use hd6301_thing.Cpu.Access.{fetch, reset, enter_interrupt, enter_interrupt_cycles}
use hd6301_thing.Cpu.Instruction.{Instruction, AddressingMode, is_ill, lookup, execute}
use hd6301_thing.Cpu.Table.Inherent.{register_entries, branch_entries, stack_entries}
use hd6301_thing.Cpu.Table.Modify.{complement_entries, shift_entries, count_entries}
use hd6301_thing.Cpu.Table.Arithmetic.{subtract_entries, wide_arithmetic_entries}
use hd6301_thing.Cpu.Table.Accumulator.{
  and_entries, transfer_entries, eor_adc_entries, ora_add_entries,
}
use hd6301_thing.Cpu.Table.Wide.{load_entries, store_entries}

-- What the processor is wired to: its address space, its three interrupt lines, and what is ticked
-- once in a cycle (the timer, the serial port, and the registered callbacks in their order).
pub record Board (W : Type 0) : Type 0 where
  pub memory : AddressSpace W
  pub irq : W → Bool
  pub timer_irq : W → Bool
  pub serial_irq : W → Bool
  pub timer_tick : W → W
  pub serial_tick : W → W
  pub tick_callbacks : List (W → W)

pub record TickResult (W : Type 0) : Type 0 where
  pub cycles_run : ℕ
  pub breakpoint_hit : Bool
  pub cpu : Cpu W

-- What one round of the loop of `tick` ends with.
pub data Round (W : Type 0) : Type 0 where
  returned : ℕ → Cpu W → Round W
  going : ℕ → Cpu W → Round W

abbrev pub at_breakpoint : Option ℕ → ℕ → Bool
at_breakpoint none pc = false
at_breakpoint (some address) pc = pc == address

module _ {W : Type 0} where
  unfoldable pub run_callbacks : List (W → W) → W → W
  run_callbacks [] w = w
  run_callbacks (f ∷ fs) w = run_callbacks fs (f w)

module _ {W : Type 0} (board : Board W) where
  -- The table of the instructions, in the parts of Cpu/Table.
  abbrev pub instruction_tables : List (List (ℕ × Instruction W))
  instruction_tables =
      register_entries board.memory
      ∷ branch_entries board.memory
      ∷ stack_entries board.memory
      ∷ complement_entries board.memory
      ∷ shift_entries board.memory
      ∷ count_entries board.memory
      ∷ subtract_entries board.memory
      ∷ wide_arithmetic_entries board.memory
      ∷ and_entries board.memory
      ∷ transfer_entries board.memory
      ∷ eor_adc_entries board.memory
      ∷ ora_add_entries board.memory
      ∷ load_entries board.memory
      ∷ store_entries board.memory
      ∷ []

  abbrev pub instruction_entries : List (ℕ × Instruction W)
  instruction_entries = flatten instruction_tables

  unfoldable pub instruction_at : ℕ → Instruction W
  unfolding lookup
  instruction_at opcode = lookup opcode instruction_entries

  unfoldable pub tick_cycle : W → W
  unfolding run_callbacks
  tick_cycle w = run_callbacks board.tick_callbacks (board.serial_tick (board.timer_tick w))

  unfoldable pub run_cycles : ℕ → W → W
  unfolding tick_cycle
  run_cycles zero w = w
  run_cycles (suc n) w = run_cycles n (tick_cycle w)

  -- One of the three interrupt checks; `&` evaluates both sides.
  unfoldable pub poll : (W → Bool) → ℕ → ℕ × Cpu W → ℕ × Cpu W
  unfolding enter_interrupt
  poll line vector (cycles, c) =
      if line c.world && not c.sr.i
      then (cycles + enter_interrupt_cycles, enter_interrupt board.memory vector c)
      else (cycles, c)

  unfoldable pub poll_all : ℕ × Cpu W → ℕ × Cpu W
  unfolding poll
  poll_all s = poll board.serial_irq 0xfff0 (poll board.timer_irq 0xfff2 (poll board.irq 0xfff8 s))

  -- Executing a fetched instruction. An illegal one resets the processor and takes a cycle.
  unfoldable pub run_fetched : Instruction W → ℕ × Cpu W → ℕ × Cpu W
  unfolding is_ill reset run_cycles execute
  run_fetched instruction (cycles, c) =
      if is_ill instruction.mode
      then (cycles + 1, reset board.memory c)
      else (let c2 = record c { world = run_cycles instruction.cycles c.world } in
          (cycles + instruction.cycles, execute board.memory instruction c2))

  unfoldable pub run_instruction : ℕ × Cpu W → ℕ × Cpu W
  unfolding fetch instruction_at run_fetched
  run_instruction (cycles, c) =
      let (opcode, c1) = fetch board.memory c in run_fetched (instruction_at opcode) (cycles, c1)

  unfoldable pub round : Bool → ℕ × Cpu W → Round W
  unfolding poll_all run_instruction
  round ignore_breakpoint s =
      let (cycles, c) = poll_all s in
      if not ignore_breakpoint && at_breakpoint c.breakpoint c.pc
      then returned cycles c
      else (let (cycles', c') = run_instruction (cycles, c) in going cycles' c')

  -- The loop; `none` means that the fuel ran out.
  unfoldable pub tick_loop : ℕ → ℕ → Bool → ℕ → Cpu W → Option (TickResult W)
  tick_loop zero cycles_to_run ignore cycles c = none
  tick_loop (suc fuel) cycles_to_run ignore cycles c = elim (ltb cycles cycles_to_run) [
    | false ↦ some (record { cycles_run = cycles; breakpoint_hit = false; cpu = c })
    | true ↦ elim (round ignore (cycles, c)) [
      | returned cycles' c' ↦
          some (record { cycles_run = cycles'; breakpoint_hit = true; cpu = c' })
      | going cycles' c' ↦ tick_loop fuel cycles_to_run ignore cycles' c'
    ]
  ]

  -- Every round takes a cycle at least, so that `cycles_to_run` rounds suffice.
  unfoldable pub tick : ℕ → Bool → Cpu W → Option (TickResult W)
  unfolding tick_loop
  tick cycles_to_run ignore c = tick_loop (suc cycles_to_run) cycles_to_run ignore 0 c
