-- ===== src/Programmer.antt =====
-- pico_programmer/pico_programmer.cpp: the firmware that drives the bus of the board from a Raspberry
-- Pi Pico. The SDK of the Pico is a parameter: a state P of the pins and of all that is behind them,
-- and what its functions do to it.
pub mod Pins
pub mod Quiet
pub mod Latches
pub mod Safety
pub mod Reading
use hd6301_thing.Common.{
  ℕ, zero, suc, ◌+◌, ◌/◌, ◌%◌, Bool, true, false, ◌==◌, ltb, bit_and, bit_or, if◌then◌else◌, u8,
  u16, ◌<<<◌, ◌>>>◌, List, [], ◌∷◌, ◌++◌, Option, none, some, switch,
}

-- The calls of the SDK that only act.
pub data Call : Type 0 where
  gpio_put : ℕ → Bool → Call
  gpio_set_mask : ℕ → Call
  gpio_clr_mask : ℕ → Call
  gpio_put_masked : ℕ → ℕ → Call
  gpio_set_dir_in_masked : ℕ → Call
  gpio_set_dir_out_masked : ℕ → Call
  gpio_init_mask : ℕ → Call
  gpio_set_function_uart : ℕ → Call
  busy_wait_us_32 : ℕ → Call
  putchar : ℕ → Call
  tud_task : Call
  tud_cdc_n_write_char : ℕ → ℕ → Call
  tud_cdc_n_write_flush : ℕ → Call
  uart_write_blocking : List ℕ → Call

-- The SDK: the calls above, and those with a result. `getchar_timeout_us` has none at a timeout;
-- the bytes of `tud_cdc_n_read` are as many as it counts.
pub record Sdk (P : Type 0) : Type 0 where
  pub perform : Call → P → P
  pub gpio_get_all : P → ℕ
  pub getchar_timeout_us : ℕ → P → Option ℕ × P
  pub tud_cdc_n_available : ℕ → P → Bool
  pub tud_cdc_n_read : ℕ → ℕ → P → List ℕ × P
  pub uart_is_readable : P → Bool
  pub uart_getc : P → ℕ × P

abbrev pub program_cdc : ℕ
program_cdc = 0

abbrev pub uart_cdc : ℕ
uart_cdc = 1

abbrev pub uart0_tx_pin : ℕ
uart0_tx_pin = 0

abbrev pub uart0_rx_pin : ℕ
uart0_rx_pin = 1

abbrev pub irq_pin : ℕ
irq_pin = 2

abbrev pub c1_pin : ℕ
c1_pin = 3

abbrev pub clk_pin : ℕ
clk_pin = 4

abbrev pub rw_pin : ℕ
rw_pin = 5

abbrev pub stby_pin : ℕ
stby_pin = 26

abbrev pub addr_h_latch_pin : ℕ
addr_h_latch_pin = 6

abbrev pub addr_h_latch_oe_pin : ℕ
addr_h_latch_oe_pin = 7

abbrev pub data_latch_oe_pin : ℕ
data_latch_oe_pin = 16

abbrev pub data_latch_pin : ℕ
data_latch_pin = 17

abbrev pub data_buf_oe_pin : ℕ
data_buf_oe_pin = 18

abbrev pub addr_l_buf_oe_pin : ℕ
addr_l_buf_oe_pin = 19

abbrev pub addr_l_latch_pin : ℕ
addr_l_latch_pin = 20

abbrev pub addr_l_latch_oe_pin : ℕ
addr_l_latch_oe_pin = 21

abbrev pub addr_h_buf_oe_pin : ℕ
addr_h_buf_oe_pin = 22

abbrev pub data_pin_0 : ℕ
data_pin_0 = 8

abbrev pub led_pin : ℕ
led_pin = 25

abbrev pub pin_mask_data : ℕ
pin_mask_data = 0xff <<< data_pin_0

-- `|` of the masks of some pins.
abbrev pub mask_of : List ℕ → ℕ
mask_of [] = 0
mask_of (pin ∷ pins) = bit_or (1 <<< pin) (mask_of pins)

abbrev pub pin_mask_latch_oe : ℕ
pin_mask_latch_oe = mask_of (data_latch_oe_pin ∷ addr_l_latch_oe_pin ∷ addr_h_latch_oe_pin ∷ [])

abbrev pub pin_mask_buf_oe : ℕ
pin_mask_buf_oe = mask_of (data_buf_oe_pin ∷ addr_l_buf_oe_pin ∷ addr_h_buf_oe_pin ∷ [])

abbrev pub pin_mask_oe : ℕ
pin_mask_oe = bit_or pin_mask_latch_oe pin_mask_buf_oe

abbrev pub pin_mask_latch : ℕ
pin_mask_latch = mask_of (data_latch_pin ∷ addr_l_latch_pin ∷ addr_h_latch_pin ∷ [])

abbrev pub pin_mask_bus : ℕ
pin_mask_bus = mask_of (clk_pin ∷ rw_pin ∷ [])

abbrev pub pin_mask_all : ℕ
pin_mask_all = bit_or pin_mask_data (
    bit_or pin_mask_oe (
      bit_or pin_mask_latch
        (bit_or pin_mask_bus (mask_of (led_pin ∷ stby_pin ∷ c1_pin ∷ irq_pin ∷ [])))))

unfoldable pub data_to_mask : ℕ → ℕ
data_to_mask bits = bits <<< data_pin_0

unfoldable pub mask_to_data : ℕ → ℕ
mask_to_data bitfield = u8 (bitfield >>> data_pin_0)

-- The calls of `enter_stby`, and of `exit_stby`.
abbrev pub enter_stby_calls : List Call
enter_stby_calls =
    gpio_put led_pin true
    ∷ gpio_set_mask pin_mask_buf_oe
    ∷ gpio_put stby_pin false
    ∷ gpio_clr_mask pin_mask_latch_oe
    ∷ []

abbrev pub exit_stby_calls : List Call
exit_stby_calls =
    gpio_put led_pin false ∷ gpio_set_mask pin_mask_latch_oe ∷ gpio_put stby_pin true ∷ []

abbrev pub set_latch_calls : ℕ → ℕ → List Call
set_latch_calls value latch_pin =
    gpio_put_masked pin_mask_data (data_to_mask value)
    ∷ gpio_put latch_pin true
    ∷ busy_wait_us_32 1
    ∷ gpio_put latch_pin false
    ∷ []

-- The read cycle until the pins are read, and after that.
abbrev pub read_cycle_start : List Call
read_cycle_start =
    gpio_put rw_pin true
    ∷ busy_wait_us_32 1
    ∷ gpio_set_dir_in_masked pin_mask_data
    ∷ gpio_put data_latch_oe_pin true
    ∷ gpio_put data_buf_oe_pin false
    ∷ gpio_put clk_pin true
    ∷ busy_wait_us_32 1
    ∷ []

abbrev pub read_cycle_end : List Call
read_cycle_end =
    gpio_put clk_pin false
    ∷ gpio_put data_buf_oe_pin true
    ∷ gpio_put data_latch_oe_pin false
    ∷ gpio_set_dir_out_masked pin_mask_data
    ∷ []

abbrev pub write_cycle_calls : List Call
write_cycle_calls =
    gpio_put rw_pin false
    ∷ busy_wait_us_32 1
    ∷ gpio_put clk_pin true
    ∷ busy_wait_us_32 1
    ∷ gpio_put clk_pin false
    ∷ gpio_put rw_pin true
    ∷ busy_wait_us_32 20
    ∷ []

abbrev pub init_pins_calls : List Call
init_pins_calls =
    gpio_set_function_uart uart0_tx_pin
    ∷ gpio_set_function_uart uart0_rx_pin
    ∷ gpio_init_mask pin_mask_all
    ∷ gpio_set_mask (bit_or pin_mask_oe (mask_of (stby_pin ∷ rw_pin ∷ [])))
    ∷ gpio_set_dir_out_masked (
        bit_or pin_mask_data (
          bit_or pin_mask_oe
            (bit_or pin_mask_latch (bit_or pin_mask_bus (mask_of (led_pin ∷ stby_pin ∷ []))))))
    ∷ []

-- A round after one that ended.
abbrev pub next_round : {P : Type 0} → Option P → (P → Option P) → Option P
next_round none f = none
next_round (some p) f = f p

module _ {P : Type 0} (sdk : Sdk P) where
  open sdk use {
    perform, gpio_get_all, getchar_timeout_us, tud_cdc_n_available, tud_cdc_n_read,
    uart_is_readable, uart_getc,
  }

  -- Calls one after the other.
  unfoldable pub perform_all : List Call → P → P
  perform_all [] p = p
  perform_all (c ∷ cs) p = perform_all cs (perform c p)

  unfoldable pub enter_stby : P → P
  enter_stby p = perform_all enter_stby_calls p

  unfoldable pub exit_stby : P → P
  exit_stby p = perform_all exit_stby_calls p

  unfoldable pub set_latch : ℕ → ℕ → P → P
  set_latch value latch_pin p = perform_all (set_latch_calls value latch_pin) p

  unfoldable pub set_data : ℕ → P → P
  unfolding set_latch
  set_data value p = set_latch value data_latch_pin p

  unfoldable pub set_address_low : ℕ → P → P
  unfolding set_latch
  set_address_low value p = set_latch value addr_l_latch_pin p

  unfoldable pub set_address_high : ℕ → P → P
  unfolding set_latch
  set_address_high value p = set_latch value addr_h_latch_pin p

  unfoldable pub set_address : ℕ → P → P
  unfolding set_address_low set_address_high
  set_address address p = set_address_high (address >>> 8) (set_address_low (u8 address) p)

  unfoldable pub read_cycle : P → ℕ × P
  read_cycle p =
      let p1 = perform_all read_cycle_start p in
      (mask_to_data (gpio_get_all p1), perform_all read_cycle_end p1)

  unfoldable pub write_cycle : P → P
  write_cycle p = perform_all write_cycle_calls p

  -- One round of the loop of `read_data`.
  unfoldable pub read_at : ℕ → P → P
  unfolding set_address read_cycle
  read_at address p =
      let (value, p1) = read_cycle (set_address address p) in perform (putchar value) p1

  -- The loop, on fuel; there is no result when the fuel runs out.
  unfoldable pub read_loop : ℕ → ℕ → ℕ → P → Option P
  unfolding read_at
  read_loop zero i stop p = none
  read_loop (suc fuel) i stop p =
      let rest = read_loop fuel (u16 (i + 1)) stop (read_at i p) in
      if i == stop then some p else rest

  unfoldable pub read_data : ℕ → ℕ → P → Option P
  unfolding read_loop
  read_data start end p = read_loop 65536 start (u16 (end + 1)) p

  unfoldable pub init_pins : P → P
  unfolding exit_stby
  init_pins p = exit_stby (perform_all init_pins_calls p)

  unfoldable pub cdc_to_uart_task : P → P
  cdc_to_uart_task p =
      let (bytes, p1) = tud_cdc_n_read uart_cdc 64 p in
      if tud_cdc_n_available uart_cdc p then perform (uart_write_blocking bytes) p1 else p

  -- At most `left` bytes from the UART.
  unfoldable pub uart_bytes : ℕ → P → P
  uart_bytes zero p = p
  uart_bytes (suc left) p =
      let (c, p1) = uart_getc p in
      let rest = uart_bytes left (perform (tud_cdc_n_write_char uart_cdc c) p1) in
      if uart_is_readable p then rest else p

  unfoldable pub uart_to_cdc_task : P → P
  unfolding uart_bytes
  uart_to_cdc_task p = perform (tud_cdc_n_write_flush uart_cdc) (uart_bytes 32 p)

  -- A command with a byte: at a timeout, 'e' is the answer.
  unfoldable pub with_byte : (ℕ → P → P) → Option ℕ × P → P
  with_byte set (none, p) = perform (putchar b'e') p
  with_byte set (some c, p) = set (u8 c) p

  -- The four bytes of a read command, all of which are waited for.
  unfoldable pub read_command : Option ℕ → Option ℕ → Option ℕ → Option ℕ → P → Option P
  unfolding read_data
  read_command (some start_l) (some start_h) (some end_l) (some end_h) p =
      read_data (u16 (start_l + (start_h <<< 8))) (u16 (end_l + (end_h <<< 8)))
        (perform (putchar b'r') p)
  read_command start_l start_h end_l end_h p = some (perform (putchar b'e') p)

  unfoldable pub read_request : P → Option P
  unfolding read_command
  read_request p =
      let (start_l, p1) = getchar_timeout_us 10000 p in
      let (start_h, p2) = getchar_timeout_us 10000 p1 in
      let (end_l, p3) = getchar_timeout_us 10000 p2 in
      let (end_h, p4) = getchar_timeout_us 10000 p3 in read_command start_l start_h end_l end_h p4

  -- The cases of the switch of `programmer_task`.
  unfoldable pub commands : P → List (ℕ × Option P)
  unfolding enter_stby exit_stby with_byte set_data set_address_low set_address_high write_cycle
      read_request
  commands p =
      (b's', some (enter_stby p))
      ∷ (b'x', some (exit_stby p))
      ∷ (b'd', some (with_byte set_data (getchar_timeout_us 10000 p)))
      ∷ (b'l', some (with_byte set_address_low (getchar_timeout_us 10000 p)))
      ∷ (b'h', some (with_byte set_address_high (getchar_timeout_us 10000 p)))
      ∷ (b'w', some (write_cycle p))
      ∷ (b'r', read_request p)
      ∷ []

  unfoldable pub command : ℕ → P → Option P
  unfolding commands
  command c p = switch c (commands p) (some p)

  unfoldable pub programmer_input : Option ℕ → P → Option P
  unfolding command
  programmer_input none p = some p
  programmer_input (some c) p = command c p

  unfoldable pub programmer_task : P → Option P
  unfolding programmer_input
  programmer_task p = let (c, p1) = getchar_timeout_us 1 p in programmer_input c p1

  -- One round of the loop of `main`, and `n` of them.
  unfoldable pub main_round : P → Option P
  unfolding cdc_to_uart_task uart_to_cdc_task programmer_task
  main_round p = programmer_task (uart_to_cdc_task (cdc_to_uart_task (perform tud_task p)))

  unfoldable pub main_rounds : ℕ → P → Option P
  unfolding main_round
  main_rounds zero p = some p
  main_rounds (suc n) p = next_round (main_round p) (main_rounds n)
