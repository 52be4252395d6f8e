-- ===== src/Cpu/Snapshot.antt =====
-- The state of the processor for a debugger, and its breakpoint (emulator/cpu6301.h and .cc).
use hd6301_thing.Common.{ℕ, ◌+◌, ◌%◌, ◌<◌, ◌≡◌, ap, Option, none, some}
use hd6301_thing.Cpu.Alu.{from_integer, as_integer}
use hd6301_thing.Cpu.State.{Cpu}
use hd6301_thing.Cpu.Shifts.{from_integer-as_integer, as_integer-from_integer}

pub record CpuState : Type 0 where
  pub a : ℕ
  pub b : ℕ
  pub x : ℕ
  pub sp : ℕ
  pub pc : ℕ
  pub sr : ℕ
  pub breakpoint : Option ℕ

module _ {W : Type 0} where
  unfoldable pub get_state : Cpu W → CpuState
  get_state c = record {
    a = c.a;
    b = c.b;
    x = c.x;
    sp = c.sp;
    pc = c.pc;
    sr = as_integer c.sr;
    breakpoint = c.breakpoint;
  }

  unfoldable pub set_state : CpuState → Cpu W → Cpu W
  set_state s c = record c {
    a = s.a;
    b = s.b;
    x = s.x;
    sp = s.sp;
    pc = s.pc;
    sr = from_integer s.sr;
    breakpoint = s.breakpoint;
  }

  unfoldable pub set_breakpoint : ℕ → Cpu W → Cpu W
  set_breakpoint address c = record c { breakpoint = some address }

  unfoldable pub clear_breakpoint : Cpu W → Cpu W
  clear_breakpoint c = record c { breakpoint = none }

  -- The state of one processor that is put into another makes it the same but for its world; a state
  -- that is put into a processor is read back with both high bits of the status register set, for a
  -- status register of a byte.
  pub set_state_lem :
      (s : CpuState) (c d : Cpu W)
      → s.sr < 256
      → (set_state (get_state c) d ≡ record c { world = d.world })
        × (get_state (set_state s d) ≡ record s { sr = s.sr % 64 + 192 })
  unfolding set_state get_state
  set_state_lem s c d h = (
    ap (λ flags. record c { sr = flags; world = d.world }) (from_integer-as_integer c.sr),
    ap (λ (flags : ℕ). record s { sr = flags }) (as_integer-from_integer s.sr h),
  )
