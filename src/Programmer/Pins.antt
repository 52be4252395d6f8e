-- ===== src/Programmer/Pins.antt =====
-- What the calls of the SDK do to the pins, as its documentation has it, and when the bus of the
-- board has two drivers (pico_programmer/pico_programmer.cpp).
use hd6301_thing.Common.{
  ℕ, ◌≡◌, Bool, true, false, not, ◌&&◌, ◌||◌, ◌==◌, nz, bit_and, ◌^◌, if◌then◌else◌,
}
use hd6301_thing.Programmer.{
  Call, gpio_put, gpio_set_mask, gpio_clr_mask, gpio_put_masked, gpio_set_dir_in_masked,
  gpio_set_dir_out_masked, gpio_init_mask, gpio_set_function_uart, busy_wait_us_32, putchar,
  tud_task, tud_cdc_n_write_char, tud_cdc_n_write_flush, uart_write_blocking, Sdk, clk_pin, rw_pin,
  data_latch_oe_pin, data_buf_oe_pin,
}

-- The values that the pins are given, and which pins are outputs.
pub record Pins : Type 0 where
  pub level : ℕ → Bool
  pub is_output : ℕ → Bool

abbrev pub has : ℕ → ℕ → Bool
has mask pin = nz (bit_and mask (2 ^ pin))

abbrev pub after : Call → Pins → Pins
after (gpio_put pin value) v = record v { level = λ q. if q == pin then value else v.level q }
after (gpio_set_mask mask) v = record v { level = λ q. if has mask q then true else v.level q }
after (gpio_clr_mask mask) v = record v { level = λ q. if has mask q then false else v.level q }
after (gpio_put_masked mask value) v = record v {
  level = λ q. if has mask q then has value q else v.level q;
}
after (gpio_set_dir_in_masked mask) v = record v {
  is_output = λ q. if has mask q then false else v.is_output q;
}
after (gpio_set_dir_out_masked mask) v = record v {
  is_output = λ q. if has mask q then true else v.is_output q;
}
after (gpio_init_mask mask) v = record {
  level = λ q. if has mask q then false else v.level q;
  is_output = λ q. if has mask q then false else v.is_output q;
}
after (gpio_set_function_uart pin) v = v
after (busy_wait_us_32 us) v = v
after (putchar c) v = v
after tud_task v = v
after (tud_cdc_n_write_char n c) v = v
after (tud_cdc_n_write_flush n) v = v
after (uart_write_blocking bytes) v = v

-- One of the eight data pins drives.
abbrev pub drives_data : Pins → Bool
drives_data v =
    v.is_output 8
    || v.is_output 9
    || v.is_output 10
    || v.is_output 11
    || v.is_output 12
    || v.is_output 13
    || v.is_output 14
    || v.is_output 15

-- The data pins are driven by the Pico or by the data buffer, whose enable is active low, not by
-- both; and in a read cycle, with the clock high, the data latch is off the bus.
abbrev pub has_one_driver : Pins → Bool
has_one_driver v =
    (v.level data_buf_oe_pin || not (drives_data v))
    && (v.level data_latch_oe_pin || not (v.level clk_pin && v.level rw_pin))

-- The documented behaviour of the SDK that safety relies on.
pub record Laws {P : Type 0} (sdk : Sdk P) (view : P → Pins) : Type 0 where
  pub performs : (c : Call) (p : P) → view (sdk.perform c p) ≡ after c (view p)
  pub getchar_keeps : (us : ℕ) (p : P) → view (sdk.getchar_timeout_us us p).1 ≡ view p
  pub cdc_read_keeps : (n count : ℕ) (p : P) → view (sdk.tud_cdc_n_read n count p).1 ≡ view p
  pub uart_getc_keeps : (p : P) → view (sdk.uart_getc p).1 ≡ view p

-- The SDK with a monitor: whether there was one driver after every call so far.
module _ {P : Type 0} (sdk : Sdk P) (view : P → Pins) where
  unfoldable pub monitored : Sdk (P × Bool)
  monitored = record {
    perform = λ c s. let p' = sdk.perform c s.0 in (p', s.1 && has_one_driver (view p'));
    gpio_get_all = λ s. sdk.gpio_get_all s.0;
    getchar_timeout_us = λ us s. let (c, p') = sdk.getchar_timeout_us us s.0 in (c, (p', s.1));
    tud_cdc_n_available = λ n s. sdk.tud_cdc_n_available n s.0;
    tud_cdc_n_read =
        λ n count s. let (bytes, p') = sdk.tud_cdc_n_read n count s.0 in (bytes, (p', s.1));
    uart_is_readable = λ s. sdk.uart_is_readable s.0;
    uart_getc = λ s. let (c, p') = sdk.uart_getc s.0 in (c, (p', s.1));
  }
