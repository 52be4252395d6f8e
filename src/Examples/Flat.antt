-- ===== src/Examples/Flat.antt =====
-- A world that is 64 KB of memory, and a processor wired to it.
use hd6301_thing.Common.{ℕ, false, List, [], ◌∷◌, none, ◌==◌, if◌then◌else◌, ◌+◌}
use hd6301_thing.Memory.{AddressSpace}
use hd6301_thing.Cpu.Alu.{StatusRegister}
use hd6301_thing.Cpu.State.{Cpu}
use hd6301_thing.Cpu.Run.{Board}

abbrev pub FlatMemory : Type 0
FlatMemory = ℕ → ℕ

abbrev pub update : FlatMemory → ℕ → ℕ → FlatMemory
update f p v q = if p == q then v else f q

abbrev pub flat_space : AddressSpace FlatMemory
flat_space = record {
  read_ranges = record { start = 0; end = 65535; callback = λ p w. (w p, w) } ∷ [];
  write_ranges = record { start = 0; end = 65535; callback = λ p v w. update w p v } ∷ [];
}

abbrev pub flat_board : Board FlatMemory
flat_board = record {
  memory = flat_space;
  irq = λ w. false;
  timer_irq = λ w. false;
  serial_irq = λ w. false;
  timer_tick = λ w. w;
  serial_tick = λ w. w;
  tick_callbacks = [];
}

-- A program at address p, over memory that reads as 0.
abbrev pub placed : ℕ → List ℕ → FlatMemory
placed p [] q = 0
placed p (v ∷ vs) q = if p == q then v else placed (p + 1) vs q

abbrev pub no_flags : StatusRegister
no_flags = record { h = false; i = false; n = false; z = false; v = false; c = false }

abbrev pub cpu_at : ℕ → FlatMemory → Cpu FlatMemory
cpu_at pc w = record {
  a = 0;
  b = 0;
  x = 0;
  sp = 0x0200;
  pc = pc;
  sr = no_flags;
  breakpoint = none;
  world = w;
}
