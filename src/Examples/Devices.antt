-- ===== src/Examples/Devices.antt =====
-- The theorems on the interrupt line and the timer at concrete states.
use hd6301_thing.Common.{
  ℕ, ◌+◌, ◌*◌, ◌≡◌, ◌≢◌, refl, arith, true, false, nz, bit_and, [], ◌∷◌, if◌then◌else◌, ◌==◌,
}
use hd6301_thing.Device.Interrupt.{
  Interrupt, IsConsistent, is_empty, contains, set_interrupt, set_interrupt_lem,
}
use hd6301_thing.Device.Timer.{
  Timer, tick, ticks, read_status_register, read_counter_high, read_counter_low,
}
use hd6301_thing.Device.Timer.Counter.{read_counter_lem}
use hd6301_thing.Device.Timer.Overflow.{overflow_lem}

-- Interrupts 5 and 3 are outstanding.
abbrev line : Interrupt
line = record { next_interrupt_id = 6; interrupts = 5 ∷ 3 ∷ []; has_interrupt = true }

line-IsConsistent : IsConsistent line
unfolding contains is_empty
line-IsConsistent = (refl, refl, omega arith)

abbrev set_line : Interrupt
set_line = (set_interrupt line).1

set_interrupt_lem_example :
    IsConsistent set_line
    × (set_line.has_interrupt ≡ true)
    × ((set_interrupt line).0 ≢ 0)
    × ((k : ℕ)
        → contains k set_line.interrupts
          ≡ (if (set_interrupt line).0 == k then true else contains k line.interrupts))
set_interrupt_lem_example = set_interrupt_lem line line-IsConsistent

-- The interrupt is enabled, and the counter about to wrap.
abbrev timer : Timer
timer = record {
  status_register = 4;
  counter_read_clears_interrupt = false;
  counter_low_latched = false;
  counter_low_latch = 0;
  counter_high_latched = false;
  counter_high_latch = 0;
  counter = 65535;
  interrupt_id = 0;
}

read_counter_lem_example :
    (read_counter_high (timer, line)).0 * 256
      + (read_counter_low
          (ticks 3 ((read_counter_high (timer, line)).1, (read_counter_high (timer, line)).2)).0).0
    ≡ 65535
read_counter_lem_example = read_counter_lem 3 (timer, line) (omega arith)

abbrev after_tick : Timer × Interrupt
after_tick = tick (timer, line)

abbrev after_read : ℕ × Timer × Interrupt
after_read = read_counter_high ((read_status_register after_tick.0).1, after_tick.1)

overflow_lem_example :
    (after_tick.0.counter ≡ 0)
    × (nz (bit_and (read_status_register after_tick.0).0 0x10) ≡ true)
    × (after_tick.1.has_interrupt ≡ true)
    × (nz (bit_and after_read.1.status_register 0x10) ≡ false)
    × (after_read.1.interrupt_id ≡ 0)
    × (after_read.2 ≡ record line { next_interrupt_id = after_tick.1.next_interrupt_id })
unfolding contains
overflow_lem_example = overflow_lem timer line refl (omega arith) refl refl line-IsConsistent refl
