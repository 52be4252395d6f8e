-- ===== src/Programmer/Safety.antt =====
-- Who drives the data pins of the Pico in a run of the firmware, and the latch in a read
-- (pico_programmer/pico_programmer.cpp).
use hd6301_thing.Common.{
  ℕ, zero, suc, ◌+◌, ◌≡◌, refl, sym, subst, arith, Bool, true, false, ◌==◌, if◌then◌else◌, u8, u16,
  ◌<<<◌, List, [], ◌∷◌, ◌++◌, All, Option, none, some, switch-All, ◌▹◌,
}
use hd6301_thing.Programmer
use hd6301_thing.Programmer.{
  Call, Sdk, putchar, tud_cdc_n_write_char, tud_cdc_n_write_flush, uart_write_blocking, tud_task,
  clk_pin, data_buf_oe_pin, addr_l_latch_pin, addr_h_latch_pin, data_latch_pin, perform_all,
  enter_stby_calls, exit_stby_calls, set_latch_calls, read_cycle_start, read_cycle_end,
  write_cycle_calls, init_pins_calls,
}
use hd6301_thing.Programmer.Reading.{read_all, read_data-ends, asked_for}
use hd6301_thing.Programmer.Quiet.{
  IsQuiet, IsWatched, enter_stby-KeepsQuiet, exit_stby-KeepsQuiet, set_latch-KeepsQuiet,
  write_cycle-KeepsQuiet, read_cycle-KeepsQuiet, init_pins-IsQuiet, init_pins-one_driver,
  silent-KeepsQuiet, watch, perform_all-IsWatched,
}
use hd6301_thing.Programmer.Pins.{Pins, after, has_one_driver, Laws, monitored}

module _ {P : Type 0} (sdk : Sdk P) (view : P → Pins) (laws : Laws sdk view) where
  abbrev mon : Sdk (P × Bool)
  mon = monitored sdk view

  abbrev Good : P × Bool → Type 0
  Good s = IsWatched view s

  set_latch-Good :
      (value latch_pin : ℕ) (s : P × Bool)
      → (data_buf_oe_pin == latch_pin) ≡ false
      → (clk_pin == latch_pin) ≡ false
      → Good s
      → Good (Programmer.set_latch mon value latch_pin s)
  unfolding Programmer.set_latch
  set_latch-Good value latch_pin s h0 h1 good =
      perform_all-IsWatched sdk view laws (set_latch_calls value latch_pin) s
        (set_latch-KeepsQuiet value latch_pin h0 h1) good

  set_address-Good :
      (address : ℕ) (s : P × Bool) → Good s → Good (Programmer.set_address mon address s)
  unfolding Programmer.set_address Programmer.set_address_low Programmer.set_address_high
  set_address-Good address s good =
      set_latch-Good _ addr_h_latch_pin _ refl refl
        (set_latch-Good _ addr_l_latch_pin s refl refl good)

  perform-Good :
      (c : Call) (s : P × Bool) → ((v : Pins) → after c v ≡ v) → Good s → Good (mon.perform c s)
  unfolding perform_all
  perform-Good c s same good =
      perform_all-IsWatched sdk view laws (c ∷ []) s (silent-KeepsQuiet c same) good

  read_cycle-Good : (s : P × Bool) → Good s → Good (Programmer.read_cycle mon s).1
  unfolding Programmer.read_cycle perform_all
  read_cycle-Good s good =
      perform_all-IsWatched sdk view laws (read_cycle_start ++ read_cycle_end) s
        read_cycle-KeepsQuiet good

  read_at-Good : (address : ℕ) (s : P × Bool) → Good s → Good (Programmer.read_at mon address s)
  unfolding Programmer.read_at
  read_at-Good address s good =
      perform-Good (putchar _) _ (λ v. refl) (read_cycle-Good _ (set_address-Good address s good))

  read_all-Good : (from : List ℕ) (s : P × Bool) → Good s → Good (read_all mon from s)
  read_all-Good [] s good = good
  read_all-Good (a ∷ rest) s good =
      read_all-Good rest (Programmer.read_at mon a s) (read_at-Good a s good)

  -- There is a result, and it is good.
  abbrev IsGood : Option (P × Bool) → Type 0
  IsGood r = (s' : P × Bool) × (r ≡ some s') × Good s'

  read_command-IsGood :
      (start_l start_h end_l end_h : Option ℕ) (s : P × Bool)
      → Good s
      → IsGood (Programmer.read_command mon start_l start_h end_l end_h s)
  unfolding Programmer.read_command
  read_command-IsGood (some a) (some b) (some c) (some d) s good =
      let start = u16 (a + (b <<< 8)) in
      let end = u16 (c + (d <<< 8)) in
      let s1 = mon.perform (putchar b'r') s in
      (
        read_all mon (asked_for start end) s1,
        read_data-ends mon start end s1 (omega arith) (omega arith),
        read_all-Good (asked_for start end) s1 (perform-Good (putchar b'r') s (λ v. refl) good),
      )
  read_command-IsGood none b c d s good = (_, refl, perform-Good (putchar b'e') s (λ v. refl) good)
  read_command-IsGood (some a) none c d s good =
      (_, refl, perform-Good (putchar b'e') s (λ v. refl) good)
  read_command-IsGood (some a) (some b) none d s good =
      (_, refl, perform-Good (putchar b'e') s (λ v. refl) good)
  read_command-IsGood (some a) (some b) (some c) none s good =
      (_, refl, perform-Good (putchar b'e') s (λ v. refl) good)

  getchar-Good : (us : ℕ) (s : P × Bool) → Good s → Good (mon.getchar_timeout_us us s).1
  unfolding monitored
  getchar-Good us s (quiet, so_far) =
      (subst IsQuiet (sym (laws.getchar_keeps us s.0)) quiet, so_far)

  read_request-IsGood : (s : P × Bool) → Good s → IsGood (Programmer.read_request mon s)
  unfolding Programmer.read_request
  read_request-IsGood s good =
      let (start_l, s1) = mon.getchar_timeout_us 10000 s in
      let (start_h, s2) = mon.getchar_timeout_us 10000 s1 in
      let (end_l, s3) = mon.getchar_timeout_us 10000 s2 in
      let (end_h, s4) = mon.getchar_timeout_us 10000 s3 in
      read_command-IsGood start_l start_h end_l end_h s4 (
        getchar-Good 10000 s3
          (getchar-Good 10000 s2 (getchar-Good 10000 s1 (getchar-Good 10000 s good))))

  with_byte-Good :
      (latch_pin : ℕ) (r : Option ℕ) (s : P × Bool)
      → (data_buf_oe_pin == latch_pin) ≡ false
      → (clk_pin == latch_pin) ≡ false
      → Good s
      → Good (Programmer.with_byte mon (λ value. Programmer.set_latch mon value latch_pin) (r, s))
  unfolding Programmer.with_byte
  with_byte-Good latch_pin none s h0 h1 good = perform-Good (putchar b'e') s (λ v. refl) good
  with_byte-Good latch_pin (some c) s h0 h1 good = set_latch-Good (u8 c) latch_pin s h0 h1 good

  byte_command-IsGood :
      (latch_pin : ℕ) (s : P × Bool)
      → (data_buf_oe_pin == latch_pin) ≡ false
      → (clk_pin == latch_pin) ≡ false
      → Good s
      → IsGood (
          some (
            Programmer.with_byte mon
              (λ value. Programmer.set_latch mon value latch_pin)
              (mon.getchar_timeout_us 10000 s)))
  byte_command-IsGood latch_pin s h0 h1 good =
      (_, refl, with_byte-Good latch_pin _ _ h0 h1 (getchar-Good 10000 s good))

  some-IsGood : (s : P × Bool) → Good s → IsGood (some s)
  some-IsGood s good = (s, refl, good)

  commands-IsGood : (s : P × Bool) → Good s → All (λ c. IsGood c.1) (Programmer.commands mon s)
  unfolding Programmer.commands Programmer.enter_stby Programmer.exit_stby Programmer.set_data
      Programmer.set_address_low Programmer.set_address_high Programmer.write_cycle
  commands-IsGood s good =
      some-IsGood _
        (perform_all-IsWatched sdk view laws enter_stby_calls s enter_stby-KeepsQuiet good)
      ▹ some-IsGood _
          (perform_all-IsWatched sdk view laws exit_stby_calls s exit_stby-KeepsQuiet good)
      ▹ byte_command-IsGood data_latch_pin s refl refl good
      ▹ byte_command-IsGood addr_l_latch_pin s refl refl good
      ▹ byte_command-IsGood addr_h_latch_pin s refl refl good
      ▹ some-IsGood _
          (perform_all-IsWatched sdk view laws write_cycle_calls s write_cycle-KeepsQuiet good)
      ▹ read_request-IsGood s good
      ▹ tt

  command-IsGood : (c : ℕ) (s : P × Bool) → Good s → IsGood (Programmer.command mon c s)
  unfolding Programmer.command
  command-IsGood c s good =
      switch-All IsGood c (Programmer.commands mon s) (some s) (some-IsGood s good)
        (commands-IsGood s good)

  programmer_task-IsGood : (s : P × Bool) → Good s → IsGood (Programmer.programmer_task mon s)
  unfolding Programmer.programmer_task
  programmer_task-IsGood s good =
      by_input (mon.getchar_timeout_us 1 s).0 (mon.getchar_timeout_us 1 s).1 (getchar-Good 1 s good)
    where
      by_input :
          (c : Option ℕ) (s : P × Bool) → Good s → IsGood (Programmer.programmer_input mon c s)
      by_input none s good = (s, refl, good)
      by_input (some c) s good = command-IsGood c s good

  if-Good : (b : Bool) (s t : P × Bool) → Good s → Good t → Good (if b then s else t)
  if-Good true s t left right = left
  if-Good false s t left right = right

  uart_bytes-Good : (left : ℕ) (s : P × Bool) → Good s → Good (Programmer.uart_bytes mon left s)
  unfolding Programmer.uart_bytes monitored
  uart_bytes-Good zero s good = good
  uart_bytes-Good (suc left) s (quiet, so_far) =
      let (c, s1) = mon.uart_getc s in
      let s2 = mon.perform (tud_cdc_n_write_char Programmer.uart_cdc c) s1 in
      if-Good (mon.uart_is_readable s) (Programmer.uart_bytes mon left s2) s
        (uart_bytes-Good left s2 (
          perform-Good (tud_cdc_n_write_char Programmer.uart_cdc c) s1 (λ v. refl)
            (subst IsQuiet (sym (laws.uart_getc_keeps s.0)) quiet, so_far)))
        (quiet, so_far)

  cdc_to_uart_task-Good : (s : P × Bool) → Good s → Good (Programmer.cdc_to_uart_task mon s)
  unfolding Programmer.cdc_to_uart_task monitored
  cdc_to_uart_task-Good s (quiet, so_far) =
      let (bytes, s1) = mon.tud_cdc_n_read Programmer.uart_cdc 64 s in
      if-Good (mon.tud_cdc_n_available Programmer.uart_cdc s)
        (mon.perform (uart_write_blocking bytes) s1) s
        (perform-Good (uart_write_blocking bytes) s1 (λ v. refl)
          (subst IsQuiet (sym (laws.cdc_read_keeps Programmer.uart_cdc 64 s.0)) quiet, so_far))
        (quiet, so_far)

  main_round-IsGood : (s : P × Bool) → Good s → IsGood (Programmer.main_round mon s)
  unfolding Programmer.main_round Programmer.uart_to_cdc_task
  main_round-IsGood s good =
      let s1 = mon.perform tud_task s in
      let s2 = Programmer.cdc_to_uart_task mon s1 in
      let s3 = Programmer.uart_bytes mon 32 s2 in
      programmer_task-IsGood (Programmer.uart_to_cdc_task mon s2) (
        perform-Good (tud_cdc_n_write_flush Programmer.uart_cdc) s3 (λ v. refl)
          (uart_bytes-Good 32 s2
            (cdc_to_uart_task-Good s1 (perform-Good tud_task s (λ v. refl) good))))

  main_rounds-IsGood : (n : ℕ) (s : P × Bool) → Good s → IsGood (Programmer.main_rounds mon n s)
  unfolding Programmer.main_rounds
  main_rounds-IsGood zero s good = (s, refl, good)
  main_rounds-IsGood (suc n) s good =
      let (s1, first, good1) = main_round-IsGood s good in
      subst (λ r. IsGood (Programmer.next_round r (Programmer.main_rounds mon n))) (sym first)
        (main_rounds-IsGood n s1 good1)

  init_pins-Good :
      (p : P) → has_one_driver (view p) ≡ true → Good (Programmer.init_pins mon (p, true))
  unfolding Programmer.init_pins Programmer.exit_stby perform_all
  init_pins-Good p h =
      let (pins, kept) =
        watch sdk view laws (init_pins_calls ++ exit_stby_calls) (p, true) refl
          (init_pins-one_driver (view p) h) in
      (subst IsQuiet (sym pins) (init_pins-IsQuiet (view p)), kept)

  -- Whatever the terminal, the UART and the board do, every round of the loop of `main` after
  -- init_pins ends, and through all calls of the SDK in it the data pins have at most one driver,
  -- and in a read cycle the data latch is off the bus, if that was so before.
  pub main_rounds-one_driver :
      (n : ℕ) (p : P)
      → has_one_driver (view p) ≡ true
      → (s : P × Bool) × (Programmer.main_rounds mon n (Programmer.init_pins mon (p, true))
          ≡ some s)
        × (s.1 ≡ true)
  main_rounds-one_driver n p h =
      let (s, ends, good) =
        main_rounds-IsGood n (Programmer.init_pins mon (p, true)) (init_pins-Good p h) in
      (s, ends, good.1)
