-- ===== src/Examples/Adapter.antt =====
-- The theorems on the pins and the W65C22 at concrete states.
use hd6301_thing.Common.{ℕ, ◌≡◌, refl, arith, true, false, [], ◌∷◌}
use hd6301_thing.Device.Port.{IoPort}
use hd6301_thing.Device.Via.{Via}
use hd6301_thing.Device.Via.Write.{write_interrupt_enable}
use hd6301_thing.Device.Via.Flags.{write_interrupt_enable_lem}

-- The world is the last value on the pins.
abbrev pins : IoPort ℕ
pins = record {
  output_change_callbacks = [];
  input_change_callbacks = [];
  data_direction = 0x0f;
  output_register = 0;
  input_register = 0;
}

-- Timer 1 has expired with its interrupt enabled.
abbrev expired : Via ℕ
expired = record {
  base_address = 0x6000;
  irq_enable_register = 0x40;
  irq_flag_register = 0xc0;
  timer1_interrupt_id = 1;
  timer2_interrupt_id = 0;
  shift_register_interrupt_id = 0;
  ca1_interrupt_id = 0;
  port_a = pins;
  port_b = pins;
  port_ca = pins;
  port_cb = pins;
  port_ca_state = 0;
  port_cb_state = 0;
  prev_ca1_level = false;
  ca1_is_rising_edge_sensitive = false;
  shift_register = 0;
  auxiliary_control_register = 0;
  peripheral_control_register = 0;
  reload_timer1_latch = false;
  timer1_active = true;
  timer2_active = false;
  timer1_latch = 0xffff;
  timer2_latch_low = 0xff;
  timer1_counter = 0;
  timer2_counter = 0;
  shift_register_shifts_remaining = 0;
  shift_register_ticks_to_next_edge = 0;
  interrupt = record { next_interrupt_id = 2; interrupts = 1 ∷ []; has_interrupt = true };
  world = 0;
}

write_interrupt_enable_lem_example :
    ((write_interrupt_enable 0x40 expired).interrupt ≡ expired.interrupt)
    × ((write_interrupt_enable 0x40 expired).timer1_interrupt_id ≡ 1)
    × ((write_interrupt_enable 0x40 expired).timer2_interrupt_id ≡ 0)
    × ((write_interrupt_enable 0x40 expired).shift_register_interrupt_id ≡ 0)
    × ((write_interrupt_enable 0x40 expired).ca1_interrupt_id ≡ 0)
write_interrupt_enable_lem_example =
    write_interrupt_enable_lem 0x40 expired refl (omega arith)
      (λ e. omega arith, λ e. absurd (e refl), λ e. absurd (e refl), λ e. absurd (e refl))
