-- ===== src/Device/Serial/Events.antt =====
-- What happens to a serial port in a run: its ticks, the accesses of the processor, and the bytes
-- from the terminal, in any order (emulator/hd6301_serial.cc).
use hd6301_thing.Common.{ℕ, suc, List, [], ◌∷◌, Bool, true, false}
use hd6301_thing.Device.Interrupt.{Interrupt}
use hd6301_thing.Device.Serial.{Serial, tick, write, read, receive}

pub data Event : Type 0 where
  ticked : Event
  written : ℕ → ℕ → Event
  was_read : ℕ → Event
  received : ℕ → Event

unfoldable pub step : Event → Serial × Interrupt → Serial × Interrupt
unfolding tick write read receive
step ticked s = tick s
step (written address value) s = write address value s
step (was_read address) s = let (value, s1, line1) = read address s in (s1, line1)
step (received byte) (s, line) = (receive byte s, line)

unfoldable pub run : List Event → Serial × Interrupt → Serial × Interrupt
unfolding step
run [] s = s
run (e ∷ es) s = run es (step e s)

abbrev pub tick_count : List Event → ℕ
tick_count [] = 0
tick_count (ticked ∷ es) = suc (tick_count es)
tick_count (written address value ∷ es) = tick_count es
tick_count (was_read address ∷ es) = tick_count es
tick_count (received byte ∷ es) = tick_count es

-- The processor writes nothing.
abbrev pub is_quiet : List Event → Bool
is_quiet [] = true
is_quiet (ticked ∷ es) = is_quiet es
is_quiet (written address value ∷ es) = false
is_quiet (was_read address ∷ es) = is_quiet es
is_quiet (received byte ∷ es) = is_quiet es
