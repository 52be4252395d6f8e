-- ===== src/Device/Timer/Overflow.antt =====
-- The overflow of the counter, its interrupt, and its acknowledgement (emulator/timer.cc).
use hd6301_thing.Common.{
  ℕ, ◌<◌, ◌≡◌, refl, arith, Bool, true, false, nz, ◌&&◌, bit_and, bit_or, ◌==◌, holds_below,
  holds_below→at,
}
use hd6301_thing.Device.Interrupt.{
  Interrupt, IsConsistent, contains, set_interrupt, clear_interrupt, clear_interrupt-set_interrupt,
  set_interrupt_lem,
}
use hd6301_thing.Device.Timer.{
  Timer, overflow, tick, acknowledge, read_status_register, read_counter_high,
}

abbrev status_laws : ℕ → Bool
status_laws x =
    nz (bit_and (bit_or x 0x10) 0x10)
    && (bit_and (bit_and (bit_or x 0x10) 0xef) 0x10 == 0)
    && (bit_and (bit_or x 0x10) 0x04 == bit_and x 0x04)

status_table : holds_below status_laws 256 ≡ true
unfolding holds_below
status_table = refl

overflow_tick :
    (t : Timer) (line : Interrupt)
    → t.counter ≡ 65535
    → nz (bit_and (bit_or t.status_register 0x10) 0x04) ≡ true
    → t.interrupt_id ≡ 0
    → tick (t, line) ≡ (
      record t {
        counter = 0;
        status_register = bit_or t.status_register 0x10;
        interrupt_id = (set_interrupt line).0;
      },
      (set_interrupt line).1,
    )
unfolding tick overflow
overflow_tick t line wraps enabled idle = ground arith

acknowledged :
    (t : Timer) (line : Interrupt)
    → nz (bit_and t.status_register 0x10) ≡ true
    → (t.interrupt_id == 0) ≡ false
    → let (high, t3, line3) = read_counter_high ((read_status_register t).1, line) in
      (t3.status_register ≡ bit_and t.status_register 0xef)
      × (t3.interrupt_id ≡ 0)
      × (line3 ≡ clear_interrupt t.interrupt_id line)
unfolding read_status_register read_counter_high acknowledge
acknowledged t line flag pending = rw (flag, pending) (refl, refl, refl)

-- With the interrupt enabled and none pending, a tick that wraps the counter sets the overflow flag
-- and an interrupt, so that the line fires; reading the status and then the high byte of the counter
-- clears both again, and the line is as before but for the next number. The next number of the line
-- is one that is not outstanding.
pub overflow_lem :
    (t : Timer) (line : Interrupt)
    → t.counter ≡ 65535
    → t.status_register < 256
    → nz (bit_and t.status_register 0x04) ≡ true
    → t.interrupt_id ≡ 0
    → IsConsistent line
    → contains line.next_interrupt_id line.interrupts ≡ false
    → let (t1, line1) = tick (t, line) in
      let (status, t2) = read_status_register t1 in
      let (high, t3, line3) = read_counter_high (t2, line1) in
      (t1.counter ≡ 0)
      × (nz (bit_and status 0x10) ≡ true)
      × (line1.has_interrupt ≡ true)
      × (nz (bit_and t3.status_register 0x10) ≡ false)
      × (t3.interrupt_id ≡ 0)
      × (line3 ≡ record line { next_interrupt_id = line1.next_interrupt_id })
unfolding read_status_register
overflow_lem t line wraps byte enabled idle consistent fresh =
    let laws = holds_below→at status_laws 256 t.status_register byte status_table in
    let new = set_interrupt_lem line consistent in
    let (id, line1) = set_interrupt line in
    let t1 = record t {
      counter = 0;
      status_register = bit_or t.status_register 0x10;
      interrupt_id = id;
    } in
    let seen = acknowledged t1 line1 (ground arith) (ground arith) in
    rw (overflow_tick t line wraps (ground arith) idle, seen.0, seen.1, seen.2)
      (
        refl,
        ground arith,
        new.1,
        ground arith,
        refl,
        clear_interrupt-set_interrupt line consistent fresh,
      )
