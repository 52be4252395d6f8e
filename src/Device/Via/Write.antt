-- ===== src/Device/Via/Write.antt =====
-- Writes to the registers of the W65C22 (emulator/w65c22.cc, `write`), and its mapping
-- (`Initialize`).
use hd6301_thing.Common.{
  ℕ, ◌+◌, bit_and, bit_or, true, nz, [], ◌∷◌, switch, ◌==◌, if◌then◌else◌, u16, not8, ◌<<<◌,
}
use hd6301_thing.Device.Port.{write_output_register, write_data_direction_register}
use hd6301_thing.Device.Via.{Via, set_irq_flag, clear_irq_flag, drive_ca, drive_cb, offset_of}

module _ {W : Type 0} where
  unfoldable pub write_port_a : ℕ → Via W → Via W
  unfolding write_output_register clear_irq_flag
  write_port_a value v =
      let (port, w) = write_output_register value (v.port_a, v.world) in
      clear_irq_flag 0x02 (record v { port_a = port; world = w })

  unfoldable pub write_port_b : ℕ → Via W → Via W
  unfolding write_output_register
  write_port_b value v =
      let (port, w) = write_output_register value (v.port_b, v.world) in
      record v { port_b = port; world = w }

  -- (timer1_latch_ & 0xFF00) | value, and (timer1_latch_ & 0xFF) | (value << 8)
  unfoldable pub latch_low : ℕ → Via W → Via W
  latch_low value v = record v { timer1_latch = bit_or (bit_and v.timer1_latch 0xff00) value }

  unfoldable pub latch_high : ℕ → Via W → Via W
  latch_high value v = record v {
    timer1_latch = bit_or (bit_and v.timer1_latch 0xff) (value <<< 8);
  }

  unfoldable pub start_timer1 : ℕ → Via W → Via W
  unfolding latch_high clear_irq_flag
  start_timer1 value v =
      let v1 = latch_high value v in
      clear_irq_flag 0x40
        (record v1 { timer1_counter = u16 (v1.timer1_latch + 1); timer1_active = true })

  unfoldable pub start_timer2 : ℕ → Via W → Via W
  unfolding clear_irq_flag
  start_timer2 value v = clear_irq_flag 0x20 (record v {
    timer2_counter = u16 (bit_or (value <<< 8) v.timer2_latch_low + 1);
    timer2_active = true;
  })

  -- In a mode other than shifting out under phi2 a write is logged and nothing is shifted.
  unfoldable pub start_shift : ℕ → Via W → Via W
  unfolding clear_irq_flag
  start_shift value v =
      let v1 = clear_irq_flag 0x04 (record v { shift_register = value }) in
      let v2 =
        if bit_and v1.auxiliary_control_register 0x1c == 0x18
        then record v1 {
          shift_register_shifts_remaining = 8;
          shift_register_ticks_to_next_edge = 4;
        }
        else v1 in
      clear_irq_flag 0x04 v2

  unfoldable pub write_auxiliary_control : ℕ → Via W → Via W
  unfolding drive_cb write_data_direction_register
  write_auxiliary_control value v =
      let v1 = record v { auxiliary_control_register = value } in
      if bit_and value 0x1c == 0x18
      then drive_cb 1 (record v1 { port_cb = write_data_direction_register 3 v1.port_cb })
      else v1

  unfoldable pub write_peripheral_control : ℕ → Via W → Via W
  unfolding drive_ca
  write_peripheral_control value v =
      let v1 = record v { peripheral_control_register = value } in
      let v2 =
        if bit_and value 0x0e == 0x0e
        then drive_ca (bit_or v1.port_ca_state 2) v1
        else (if bit_and value 0x0e == 0x0c
            then drive_ca (bit_and v1.port_ca_state (not8 2)) v1
            else v1) in
      record v2 { ca1_is_rising_edge_sensitive = bit_and value 1 == 1 }

  unfoldable pub write_interrupt_enable : ℕ → Via W → Via W
  unfolding set_irq_flag clear_irq_flag
  write_interrupt_enable value v =
      if nz (bit_and value 0x80)
      then set_irq_flag 0
          (record v { irq_enable_register = bit_or v.irq_enable_register (bit_and value 0x7f) })
      else clear_irq_flag 0 (record v {
        irq_enable_register = bit_and v.irq_enable_register (bit_and (not8 value) 0x7f);
      })

  unfoldable pub write : ℕ → ℕ → Via W → Via W
  unfolding offset_of write_port_a write_port_b latch_low latch_high start_timer1 start_timer2
      start_shift write_auxiliary_control write_peripheral_control write_interrupt_enable
  write address value v =
      switch (offset_of address v)
        ((0, write_port_b value v)
          ∷ (1, write_port_a value v)
          ∷ (2, record v { port_b = write_data_direction_register value v.port_b })
          ∷ (3, record v { port_a = write_data_direction_register value v.port_a })
          ∷ (4, latch_low value v)
          ∷ (5, start_timer1 value v)
          ∷ (6, latch_low value v)
          ∷ (7, clear_irq_flag 0x40 (latch_high value v))
          ∷ (8, record v { timer2_latch_low = value })
          ∷ (9, start_timer2 value v)
          ∷ (10, start_shift value v)
          ∷ (11, write_auxiliary_control value v)
          ∷ (12, write_peripheral_control value v)
          ∷ (13, clear_irq_flag (bit_and value 0x7f) v)
          ∷ (14, write_interrupt_enable value v)
          ∷ [])
        v
