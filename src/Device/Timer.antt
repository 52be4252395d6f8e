-- ===== src/Device/Timer.antt =====
-- emulator/timer.h and .cc: the free-running counter of the processor. The interrupt line that it
-- is given is passed along with it.
pub mod Counter
pub mod Overflow
pub mod Mapping
use hd6301_thing.Common.{
  ℕ, zero, suc, ◌+◌, bit_and, bit_or, Bool, true, false, nz, ◌==◌, if◌then◌else◌, u8, u16, ◌<<<◌,
  ◌>>>◌,
}
use hd6301_thing.Device.Interrupt.{Interrupt, set_interrupt, clear_interrupt}

pub record Timer : Type 0 where
  pub status_register : ℕ
  pub counter_read_clears_interrupt : Bool
  pub counter_low_latched : Bool
  pub counter_low_latch : ℕ
  pub counter_high_latched : Bool
  pub counter_high_latch : ℕ
  pub counter : ℕ
  pub interrupt_id : ℕ

abbrev pub timer_overflow : ℕ
timer_overflow = 0x10

abbrev pub timer_interrupt_enable : ℕ
timer_interrupt_enable = 0x04

-- The overflow of `tick`.
unfoldable pub overflow : Timer × Interrupt → Timer × Interrupt
unfolding set_interrupt
overflow (t, line) =
    let t1 = record t { status_register = bit_or t.status_register timer_overflow } in
    if nz (bit_and t1.status_register timer_interrupt_enable)
    then (if t1.interrupt_id == 0
        then (let (id, line') = set_interrupt line in (record t1 { interrupt_id = id }, line'))
        else (t1, line))
    else (t1, line)

unfoldable pub tick : Timer × Interrupt → Timer × Interrupt
unfolding overflow
tick (t, line) =
    let t1 = record t { counter = u16 (t.counter + 1) } in
    if t1.counter == 0 then overflow (t1, line) else (t1, line)

unfoldable pub read_status_register : Timer → ℕ × Timer
read_status_register t = (
  t.status_register,
  if nz (bit_and t.status_register timer_overflow)
      then record t { counter_read_clears_interrupt = true }
      else t,
)

unfoldable pub write_status_register : ℕ → Timer → Timer
write_status_register value t = record t { status_register = bit_and value 0x1f }

unfoldable pub read_counter_low : Timer → ℕ × Timer
read_counter_low t =
    if t.counter_low_latched
    then (t.counter_low_latch, record t { counter_low_latched = false })
    else (u8 t.counter, t)

unfoldable pub write_counter_low : ℕ → Timer → Timer
write_counter_low value t =
    if t.counter_high_latched
    then record t {
      counter_high_latched = false;
      counter = bit_or (t.counter_high_latch <<< 8) value;
    }
    else record t { counter = bit_or (bit_and t.counter 0xff00) value }

-- The first read of the high byte after the status was read clears the overflow and the interrupt.
unfoldable pub acknowledge : Timer × Interrupt → Timer × Interrupt
unfolding clear_interrupt
acknowledge (t, line) =
    if t.counter_read_clears_interrupt
    then (let t1 = record t {
      counter_read_clears_interrupt = false;
      status_register = bit_and t.status_register 0xef;
    } in
        if t1.interrupt_id == 0
        then (t1, line)
        else (record t1 { interrupt_id = 0 }, clear_interrupt t1.interrupt_id line))
    else (t, line)

unfoldable pub read_counter_high : Timer × Interrupt → ℕ × Timer × Interrupt
unfolding acknowledge
read_counter_high (t, line) =
    let (t1, line1) = acknowledge (t, line) in
    (
      u8 (t.counter >>> 8),
      record t1 { counter_low_latch = u8 t.counter; counter_low_latched = true },
      line1,
    )

unfoldable pub write_counter_high : ℕ → Timer → Timer
write_counter_high value t = record t {
  counter_high_latch = value;
  counter_high_latched = true;
  counter = 0xfff8;
}

-- `n` ticks.
unfoldable pub ticks : ℕ → Timer × Interrupt → Timer × Interrupt
unfolding tick
ticks zero s = s
ticks (suc n) s = ticks n (tick s)
