-- ===== src/Device/Timer/Mapping.antt =====
-- The registers of the timer in the address space: the constructor in emulator/timer.cc.
use hd6301_thing.Common.{ℕ, Option, none, some}
use hd6301_thing.Memory
use hd6301_thing.Memory.{AddressSpace}
use hd6301_thing.Part.{Part}
use hd6301_thing.Device.Interrupt.{Interrupt}
use hd6301_thing.Device.Timer.{
  Timer, read_status_register, write_status_register, read_counter_high, write_counter_high,
  read_counter_low, write_counter_low,
}

module _ {W : Type 0} (part : Part W (Timer × Interrupt)) where
  -- A registration that fails is logged.
  abbrev pub or_unchanged : AddressSpace W → Option (AddressSpace W) → AddressSpace W
  or_unchanged m none = m
  or_unchanged m (some m') = m'

  unfoldable pub map_read :
      ℕ → (Timer × Interrupt → ℕ × Timer × Interrupt) → AddressSpace W → AddressSpace W
  map_read address f m = or_unchanged m (
      Memory.register_read m (record {
        start = address;
        end = address;
        callback = λ a w. let (value, t, line) = f (part.view w) in (value, part.put (t, line) w);
      }))

  unfoldable pub map_write :
      ℕ → (ℕ → Timer × Interrupt → Timer × Interrupt) → AddressSpace W → AddressSpace W
  map_write address f m = or_unchanged m (
      Memory.register_write m (record {
        start = address;
        end = address;
        callback = λ a value w. part.put (f value (part.view w)) w;
      }))

  unfoldable pub map_timer : AddressSpace W → AddressSpace W
  unfolding map_read map_write read_status_register write_status_register read_counter_high
      write_counter_high read_counter_low write_counter_low
  map_timer m =
      let m1 =
        map_read 0x0008 (λ (t, line). let (value, t') = read_status_register t in (value, t', line))
          m in
      let m2 = map_write 0x0008 (λ value (t, line). (write_status_register value t, line)) m1 in
      let m3 = map_read 0x0009 read_counter_high m2 in
      let m4 = map_write 0x0009 (λ value (t, line). (write_counter_high value t, line)) m3 in
      let m5 =
        map_read 0x000a (λ (t, line). let (value, t') = read_counter_low t in (value, t', line))
          m4 in
      map_write 0x000a (λ value (t, line). (write_counter_low value t, line)) m5
