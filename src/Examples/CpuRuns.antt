-- ===== src/Examples/CpuRuns.antt =====
-- Runs of the processor, and of the machine with it.
use hd6301_thing.Common.{ℕ, ◌+◌, ◌*◌, ◌≡◌, refl, List, [], ◌∷◌, none, some, Option, false, true}
use hd6301_thing.Cpu.State.{Cpu}
use hd6301_thing.Cpu.Run.{tick, TickResult}
use hd6301_thing.Machine
use hd6301_thing.Machine.{Machine, milliseconds, machine_at}
use hd6301_thing.Machine.Pace.{cpu_tick, overruns, milliseconds_lem}
use hd6301_thing.Examples.Flat.{FlatMemory, flat_board, placed, cpu_at}

-- ldaa #200; adda #100; psha; pulb; ldx #$1234; stx $40; jmp $0
abbrev program : List ℕ
program =
    0x86 ∷ 200 ∷ 0x8b ∷ 100 ∷ 0x36 ∷ 0x33 ∷ 0xce ∷ 0x12 ∷ 0x34 ∷ 0xdf ∷ 0x40 ∷ 0x7e ∷ 0 ∷ 0 ∷ []

abbrev final : Option (TickResult FlatMemory) → ℕ × ℕ × ℕ × ℕ × ℕ × ℕ × ℕ
final none = (0, 0, 0, 0, 0, 0, 0)
final (some r) =
    (r.cycles_run, r.cpu.a, r.cpu.b, r.cpu.x, r.cpu.pc, r.cpu.world 0x40, r.cpu.world 0x41)

program_runs :
    final (tick flat_board 18 false (cpu_at 0x100 (placed 0x100 program)))
    ≡ (18, 44, 44, 0x1234, 0x10b, 0x12, 0x34)
unfolding tick hd6301_thing.Cpu.Run.round hd6301_thing.Memory.get hd6301_thing.Memory.get_in
    hd6301_thing.Cpu.Instruction.load hd6301_thing.Cpu.State.by_ref hd6301_thing.Memory.set
    hd6301_thing.Memory.set_in hd6301_thing.Cpu.Instruction.with_pul8
    hd6301_thing.Cpu.Instruction.load_x hd6301_thing.Cpu.Instruction.store16
    hd6301_thing.Cpu.Alu.add hd6301_thing.Memory.set16
program_runs = refl

-- The same, from its begin again and again.
abbrev loop : List ℕ
loop = 0x86 ∷ 200 ∷ 0x8b ∷ 100 ∷ 0x36 ∷ 0x33 ∷ 0xce ∷ 0x12 ∷ 0x34 ∷ 0xdf ∷ 0x40 ∷ 0x7e ∷ 1 ∷ 0 ∷ []

-- Two milliseconds of 12 cycles: the first runs 14, the second, which is asked for 10, runs 11.
abbrev machine : Machine (Cpu FlatMemory)
machine = Machine.start (machine_at 12000 (cpu_at 0x100 (placed 0x100 loop)))

machine_runs :
    ((milliseconds (cpu_tick flat_board) 2 machine).1.cpu_running ≡ true)
    × ((milliseconds (cpu_tick flat_board) 2 machine).0 ≡ 25)
    × (overruns (cpu_tick flat_board) 1 machine ≡ 1)
unfolding tick hd6301_thing.Cpu.Run.round hd6301_thing.Memory.get hd6301_thing.Memory.get_in
    hd6301_thing.Cpu.Instruction.load hd6301_thing.Cpu.State.by_ref hd6301_thing.Memory.set
    hd6301_thing.Memory.set_in hd6301_thing.Cpu.Instruction.with_pul8
    hd6301_thing.Cpu.Instruction.load_x hd6301_thing.Cpu.Instruction.store16
    hd6301_thing.Cpu.Alu.add hd6301_thing.Memory.set16 milliseconds Machine.start machine_at
    hd6301_thing.Memory.get16
machine_runs = (refl, refl, refl)

milliseconds_lem_example :
    (milliseconds (cpu_tick flat_board) (1 + 1) machine).0
    ≡ (1 + 1) * machine.ticks_per_ms + overruns (cpu_tick flat_board) 1 machine
milliseconds_lem_example = milliseconds_lem flat_board 1 machine machine_runs.0
