-- ===== src/Device/Timer/Counter.antt =====
-- Reading and writing the two bytes of the counter while it runs (emulator/timer.cc).
use hd6301_thing.Common.{
  ℕ, zero, suc, ◌+◌, ◌*◌, ◌%◌, ◌/◌, ◌<◌, ◌≡◌, refl, ◌∙◌, arith, true, bit_or_concat,
}
use hd6301_thing.Device.Interrupt.{Interrupt}
use hd6301_thing.Device.Timer.{
  Timer, overflow, tick, ticks, read_counter_high, read_counter_low, write_counter_high,
  write_counter_low,
}

-- Ticks leave both latches alone.
abbrev SameLatches : Timer → Timer → Type 0
SameLatches t u =
    (u.counter_low_latched ≡ t.counter_low_latched)
    × (u.counter_low_latch ≡ t.counter_low_latch)
    × (u.counter_high_latched ≡ t.counter_high_latched)
    × (u.counter_high_latch ≡ t.counter_high_latch)

tick-SameLatches : (s : Timer × Interrupt) → SameLatches s.0 (tick s).0
unfolding tick overflow
tick-SameLatches (t, line) = ground arith

ticks-SameLatches : (n : ℕ) (s : Timer × Interrupt) → SameLatches s.0 (ticks n s).0
unfolding ticks
ticks-SameLatches zero s = (refl, refl, refl, refl)
ticks-SameLatches (suc n) s =
    let first = tick-SameLatches s in
    let rest = ticks-SameLatches n (tick s) in
    (rest.0 ∙ first.0, rest.1 ∙ first.1, rest.2 ∙ first.2, rest.3 ∙ first.3)

read_counter_high-latches :
    (s : Timer × Interrupt)
    → ((read_counter_high s).0 ≡ s.0.counter / 256 % 256)
      × ((read_counter_high s).1.counter_low_latched ≡ true)
      × ((read_counter_high s).1.counter_low_latch ≡ s.0.counter % 256)
unfolding read_counter_high
read_counter_high-latches (t, line) = (refl, refl, refl)

-- Reading the high byte and then the low byte, with any number of ticks between, gives the two bytes
-- of the counter at the first read.
pub read_counter_lem :
    (n : ℕ) (s : Timer × Interrupt)
    → s.0.counter < 65536
    → let (high, t, line) = read_counter_high s in
      let (low, t') = read_counter_low (ticks n (t, line)).0 in high * 256 + low ≡ s.0.counter
unfolding read_counter_low
read_counter_lem n s h =
    let (high, t, line) = read_counter_high s in
    let read = read_counter_high-latches s in
    let kept = ticks-SameLatches n (t, line) in
    rw (kept.0 ∙ read.1, kept.1 ∙ read.2, read.0) (omega arith)

-- Writing the high byte and then the low byte, with any number of ticks between, sets the counter to
-- the two bytes.
pub write_counter_lem :
    (n high low : ℕ) (t : Timer) (line : Interrupt)
    → high < 256
    → low < 256
    → (write_counter_low low (ticks n (write_counter_high high t, line)).0).counter
      ≡ high * 256 + low
unfolding write_counter_low write_counter_high
write_counter_lem n high low t line h k =
    let kept = ticks-SameLatches n (write_counter_high high t, line) in
    rw (kept.2, kept.3) (bit_or_concat 8 8 high low h k)

tick-counter : (s : Timer × Interrupt) → (tick s).0.counter ≡ (s.0.counter + 1) % 65536
unfolding tick overflow
tick-counter (t, line) = ground arith

-- n ticks add n to the counter, modulo 65536.
pub ticks_lem :
    (n : ℕ) (s : Timer × Interrupt)
    → s.0.counter < 65536
    → (ticks n s).0.counter ≡ (s.0.counter + n) % 65536
unfolding ticks
ticks_lem zero s h = omega arith
ticks_lem (suc n) s h =
    let next = tick-counter s in omega (arith, ticks_lem n (tick s) (omega arith))
