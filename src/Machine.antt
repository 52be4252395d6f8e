-- ===== src/Machine.antt =====
-- emulator/hd6301_thing.h and .cc: the loop that runs the processor in real time. `tick` of the
-- processor is a parameter: it is given the cycles to run, and gives those that were run, whether a
-- breakpoint was hit, and the processor afterwards. The clock of the host is left out.
pub mod Pace
pub mod Calls
pub mod Map
pub mod Regions
use hd6301_thing.Common.{ℕ, zero, suc, ◌+◌, ◌-◌, Bool, true, false, leb, if◌then◌else◌, not, ◌/◌}
use hd6301_thing.Common.Int.{ℤ, pos, negsuc}

-- The difference of two numbers.
unfoldable pub minus : ℕ → ℕ → ℤ
minus a b = if leb b a then pos (a - b) else negsuc (b - a - 1)

-- A number less an integer.
unfoldable pub less : ℕ → ℤ → ℤ
unfolding minus
less a (pos b) = minus a b
less a (negsuc b) = pos (a + suc b)

-- A processor that is asked for fewer than no cycles runs as for none.
abbrev pub at_least_none : ℤ → ℕ
at_least_none (pos n) = n
at_least_none (negsuc n) = 0

pub record Machine (C : Type 0) : Type 0 where
  pub cpu : C
  pub cpu_running : Bool
  pub ticks_per_ms : ℕ
  pub extra_ticks : ℤ

module _ {C : Type 0} where
  -- The machine at construction, from a processor.
  unfoldable pub machine_at : ℕ → C → Machine C
  machine_at ticks_per_second cpu = record {
    cpu = cpu;
    cpu_running = false;
    ticks_per_ms = ticks_per_second / 1000;
    extra_ticks = pos 0;
  }

  unfoldable pub start : Machine C → Machine C
  start m = record m { cpu_running = true }

  unfoldable pub stop : Machine C → Machine C
  stop m = record m { cpu_running = false }

  module _ (tick : ℕ → C → ℕ × Bool × C) where
    -- A millisecond of `emulator_loop`, with the cycles that were run in it.
    unfoldable pub millisecond : Machine C → ℕ × Machine C
    unfolding less minus
    millisecond m =
        let (cycles_run, breakpoint_hit, cpu) =
          tick (at_least_none (less m.ticks_per_ms m.extra_ticks)) m.cpu in
        if m.cpu_running
        then (
          cycles_run,
          record m {
            cpu = cpu;
            extra_ticks = minus cycles_run m.ticks_per_ms;
            cpu_running = not breakpoint_hit;
          },
        )
        else (0, m)

    -- `n` milliseconds, with the cycles that were run in all of them.
    unfoldable pub milliseconds : ℕ → Machine C → ℕ × Machine C
    unfolding millisecond
    milliseconds zero m = (0, m)
    milliseconds (suc n) m =
        let (cycles, m1) = millisecond m in
        let (more, m2) = milliseconds n m1 in (cycles + more, m2)
