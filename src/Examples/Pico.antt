-- ===== src/Examples/Pico.antt =====
-- The theorems on the programmer at a board with a memory, and those on the glue at a board of ports.
use hd6301_thing.Common.{
  ℕ, ◌+◌, ◌*◌, ◌%◌, ◌<◌, ◌≡◌, refl, arith, Bool, true, false, if◌then◌else◌, List, [], ◌∷◌, ◌++◌,
  map, Option, none, some,
}
use hd6301_thing.Programmer
use hd6301_thing.Programmer.{
  Call, gpio_put, gpio_put_masked, putchar, Sdk, addr_l_latch_pin, addr_h_latch_pin, mask_to_data,
  perform_all, read_cycle_start, set_address, main_rounds, init_pins, read_command,
}
use hd6301_thing.Programmer.Pins.{Pins, after, Laws, monitored}
use hd6301_thing.Programmer.Reading.{is_putchar, Terminal, asked_for, read_command_lem}
use hd6301_thing.Programmer.Latches.{IsStandby, Hardware, data_on}
use hd6301_thing.Programmer.Safety.{main_rounds-one_driver}

-- The pins, the two latches of the address, and the terminal.
record Bench : Type 0 where
  pins : Pins
  low : ℕ
  high : ℕ
  typed : List ℕ
  printed : List ℕ

-- A latch is transparent while its pin is high.
abbrev latched : ℕ → Pins → ℕ → ℕ
latched pin v held = if v.level pin then data_on v else held

abbrev put_out : Call → List ℕ → List ℕ
put_out (putchar c) printed = printed ++ c ∷ []
put_out c printed = printed

-- The memory holds at each address its low byte.
abbrev memory : ℕ → ℕ
memory address = address % 256

abbrev next_typed : List ℕ → Bench → Option ℕ × Bench
next_typed [] b = (none, b)
next_typed (c ∷ rest) b = (some c, record b { typed = rest })

abbrev bench : Sdk Bench
bench = record {
  perform = λ c b.
      let v = after c b.pins in
      record b {
        pins = v;
        low = latched addr_l_latch_pin v b.low;
        high = latched addr_h_latch_pin v b.high;
        printed = put_out c b.printed;
      };
  gpio_get_all = λ b. memory (b.high * 256 + b.low) * 256;
  getchar_timeout_us = λ us b. next_typed b.typed b;
  tud_cdc_n_available = λ n b. false;
  tud_cdc_n_read = λ n count b. ([], b);
  uart_is_readable = λ b. false;
  uart_getc = λ b. (0, b);
}

next_typed-pins : (typed : List ℕ) (b : Bench) → (next_typed typed b).1.pins ≡ b.pins
next_typed-pins [] b = refl
next_typed-pins (c ∷ rest) b = refl

bench-Laws : Laws bench (λ b. b.pins)
bench-Laws = record {
  performs = λ c b. refl;
  getchar_keeps = λ us b. next_typed-pins b.typed b;
  cdc_read_keeps = λ n count b. refl;
  uart_getc_keeps = λ b. refl;
}

put_out-other : (c : Call) (printed : List ℕ) → is_putchar c ≡ false → put_out c printed ≡ printed
put_out-other (putchar c) printed h = cc
put_out-other (gpio_put pin value) printed h = refl
put_out-other (Programmer.gpio_put_masked m value) printed h = refl
put_out-other (Programmer.gpio_set_mask m) printed h = refl
put_out-other (Programmer.gpio_clr_mask m) printed h = refl
put_out-other (Programmer.gpio_set_dir_in_masked m) printed h = refl
put_out-other (Programmer.gpio_set_dir_out_masked m) printed h = refl
put_out-other (Programmer.gpio_init_mask m) printed h = refl
put_out-other (Programmer.gpio_set_function_uart m) printed h = refl
put_out-other (Programmer.busy_wait_us_32 us) printed h = refl
put_out-other Programmer.tud_task printed h = refl
put_out-other (Programmer.tud_cdc_n_write_char n c) printed h = refl
put_out-other (Programmer.tud_cdc_n_write_flush n) printed h = refl
put_out-other (Programmer.uart_write_blocking bytes) printed h = refl

latched-open : (pin : ℕ) (v : Pins) (held : ℕ) → v.level pin ≡ true → latched pin v held ≡ data_on v
latched-open pin v held h = rw (h) refl

latched-closed : (pin : ℕ) (v : Pins) (held : ℕ) → v.level pin ≡ false → latched pin v held ≡ held
latched-closed pin v held h = rw (h) refl

bench-Terminal : Terminal bench (λ b. b.printed)
bench-Terminal = record {
  prints = λ c b. refl;
  prints_nothing = λ c b h. put_out-other c b.printed h;
}

one_byte : (n : ℕ) → n < 256 → mask_to_data (n * 256) ≡ n
unfolding mask_to_data
one_byte n h = omega arith

bench-Hardware : Hardware bench (λ b. b.pins) (λ b. b.low) (λ b. b.high) memory
bench-Hardware = record {
  performs = λ c b. refl;
  low_latch = record {
    follows = λ c b h outputs. latched-open addr_l_latch_pin (after c b.pins) b.low h;
    keeps = λ c b h. latched-closed addr_l_latch_pin (after c b.pins) b.low h;
  };
  high_latch = record {
    follows = λ c b h outputs. latched-open addr_h_latch_pin (after c b.pins) b.high h;
    keeps = λ c b h. latched-closed addr_h_latch_pin (after c b.pins) b.high h;
  };
  reads = λ b reading. one_byte (memory (b.high * 256 + b.low)) (omega arith);
}

-- At reset all pins are inputs; the commands to come are a write to address 7, then a read.
abbrev at_reset : Bench
at_reset = record {
  pins = record { level = λ pin. false; is_output = λ pin. false };
  low = 0;
  high = 0;
  typed = b's' ∷ b'l' ∷ 7 ∷ b'd' ∷ 1 ∷ b'w' ∷ b'r' ∷ 5 ∷ 0 ∷ 6 ∷ 0 ∷ [];
  printed = [];
}

main_rounds-one_driver_example :
    (s : Bench × Bool) × (main_rounds
        (monitored bench (λ b. b.pins))
        4
        (init_pins (monitored bench (λ b. b.pins)) (at_reset, true))
      ≡ some s)
    × (s.1 ≡ true)
main_rounds-one_driver_example =
    main_rounds-one_driver bench (λ b. b.pins) bench-Laws 4 at_reset refl

-- In standby, after the pins were set up.
abbrev standby : Bench
standby = Programmer.enter_stby bench (init_pins bench at_reset)

enter_stby-IsStandby : IsStandby standby.pins
unfolding Programmer.enter_stby init_pins perform_all
enter_stby-IsStandby = ((refl, refl, refl, refl, refl, refl), refl, refl, refl)

read_command_lem_example :
    (p' : Bench) × (read_command bench (some 254) (some 1) (some 1) (some 2) standby ≡ some p')
    × (p'.printed ≡ standby.printed ++ b'r' ∷ map memory (asked_for 510 513))
read_command_lem_example =
    read_command_lem bench (λ b. b.printed) (λ b. b.pins) (λ b. b.low) (λ b. b.high) memory
      bench-Terminal bench-Hardware 254 1 1 2 standby (omega arith) (omega arith) (omega arith)
      (omega arith) enter_stby-IsStandby

asked_for_four : asked_for 510 513 ≡ 510 ∷ 511 ∷ 512 ∷ 513 ∷ []
asked_for_four = refl

asked_for_all : asked_for 0 65535 ≡ []
asked_for_all = refl
