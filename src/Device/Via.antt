-- ===== src/Device/Via.antt =====
-- emulator/w65c22.h and .cc: the W65C22 interface adapter, with its four ports and the interrupt
-- line. What the ports are wired to is a world W apart from the adapter. The lock is left out.
pub mod Write
pub mod Flags
pub mod Mapping
use hd6301_thing.Common.{
  ℕ, ◌+◌, ◌-◌, ◌*◌, bit_and, bit_or, Bool, true, false, not, nz, ◌&&◌, ◌||◌, [], ◌∷◌, switch, ltb,
  ◌==◌, if◌then◌else◌, u8, u16, sub8, sub16, not8, ◌<<<◌, ◌>>>◌,
}
use hd6301_thing.Device.Interrupt.{Interrupt, set_interrupt, clear_interrupt}
use hd6301_thing.Device.Port.{
  IoPort, read_input_register, write_output_register, write_data_direction_register,
  read_data_direction_register,
}

pub record Via (W : Type 0) : Type 0 where
  pub base_address : ℕ
  pub irq_enable_register : ℕ
  pub irq_flag_register : ℕ
  pub timer1_interrupt_id : ℕ
  pub timer2_interrupt_id : ℕ
  pub shift_register_interrupt_id : ℕ
  pub ca1_interrupt_id : ℕ
  pub port_a : IoPort W
  pub port_b : IoPort W
  pub port_ca : IoPort W
  pub port_cb : IoPort W
  pub port_ca_state : ℕ
  pub port_cb_state : ℕ
  pub prev_ca1_level : Bool
  pub ca1_is_rising_edge_sensitive : Bool
  pub shift_register : ℕ
  pub auxiliary_control_register : ℕ
  pub peripheral_control_register : ℕ
  pub reload_timer1_latch : Bool
  pub timer1_active : Bool
  pub timer2_active : Bool
  pub timer1_latch : ℕ
  pub timer2_latch_low : ℕ
  pub timer1_counter : ℕ
  pub timer2_counter : ℕ
  pub shift_register_shifts_remaining : ℕ
  pub shift_register_ticks_to_next_edge : ℕ
  pub interrupt : Interrupt
  pub world : W

module _ {W : Type 0} where
  -- One of the four tests of `set_irq_flag`: the number of the interrupt of the flag `irq`, and the
  -- line, afterwards.
  unfoldable pub fire : ℕ → ℕ → Via W → Interrupt → ℕ × Interrupt
  unfolding set_interrupt
  fire irq id v line =
      if nz (bit_and v.irq_flag_register irq) && nz (bit_and v.irq_enable_register irq) && (id == 0)
      then set_interrupt line
      else (id, line)

  -- The flags are set and the top flag with them, and the interrupts that are enabled fire.
  unfoldable pub set_irq_flag : ℕ → Via W → Via W
  unfolding fire
  set_irq_flag mask v =
      let flags = bit_or v.irq_flag_register (bit_and mask 0x7f) in
      let v1 = record v {
        irq_flag_register =
            if nz (bit_and (bit_and flags 0x7f) v.irq_enable_register)
            then bit_or flags 0x80
            else flags;
      } in
      let (id1, line1) = fire 0x40 v.timer1_interrupt_id v1 v.interrupt in
      let (id2, line2) = fire 0x20 v.timer2_interrupt_id v1 line1 in
      let (id3, line3) = fire 0x04 v.shift_register_interrupt_id v1 line2 in
      let (id4, line4) = fire 0x02 v.ca1_interrupt_id v1 line3 in
      record v1 {
        timer1_interrupt_id = id1;
        timer2_interrupt_id = id2;
        shift_register_interrupt_id = id3;
        ca1_interrupt_id = id4;
        interrupt = line4;
      }

  -- One of the four tests of `clear_irq_flag`.
  unfoldable pub quiet : ℕ → ℕ → Via W → Interrupt → ℕ × Interrupt
  unfolding clear_interrupt
  quiet irq id v line =
      if (bit_and v.irq_flag_register irq == 0) && not (id == 0)
      then (0, clear_interrupt id line)
      else (id, line)

  unfoldable pub clear_irq_flag : ℕ → Via W → Via W
  unfolding quiet
  clear_irq_flag mask v =
      let flags = bit_and v.irq_flag_register (not8 (bit_or mask 0x80)) in
      let v1 = record v {
        irq_flag_register =
            if nz (bit_and flags v.irq_enable_register) then bit_or flags 0x80 else flags;
      } in
      let (id1, line1) = quiet 0x40 v.timer1_interrupt_id v1 v.interrupt in
      let (id2, line2) = quiet 0x20 v.timer2_interrupt_id v1 line1 in
      let (id3, line3) = quiet 0x04 v.shift_register_interrupt_id v1 line2 in
      let (id4, line4) = quiet 0x02 v.ca1_interrupt_id v1 line3 in
      record v1 {
        timer1_interrupt_id = id1;
        timer2_interrupt_id = id2;
        shift_register_interrupt_id = id3;
        ca1_interrupt_id = id4;
        interrupt = line4;
      }

  unfoldable pub ca1_transition : ℕ → Via W → Via W
  unfolding set_irq_flag
  ca1_transition port_data v =
      let current = nz (bit_and port_data 1) in
      let edge =
        v.ca1_is_rising_edge_sensitive && not v.prev_ca1_level && current
        || not v.ca1_is_rising_edge_sensitive && v.prev_ca1_level && not current in
      let v1 = if edge then set_irq_flag 0x02 v else v in record v1 { prev_ca1_level = current }

  -- port_cb_state_ = state; port_cb_.write_output_register(port_cb_state_)
  unfoldable pub drive_cb : ℕ → Via W → Via W
  unfolding write_output_register
  drive_cb state v =
      let (port, w) = write_output_register state (v.port_cb, v.world) in
      record v { port_cb_state = state; port_cb = port; world = w }

  -- The same of `port_ca_`.
  unfoldable pub drive_ca : ℕ → Via W → Via W
  unfolding write_output_register
  drive_ca state v =
      let (port, w) = write_output_register state (v.port_ca, v.world) in
      record v { port_ca_state = state; port_ca = port; world = w }

  -- Both counters step, and the delayed reload of timer 1.
  unfoldable pub count_down : Via W → Via W
  count_down v = record v {
    timer1_counter = if v.reload_timer1_latch then v.timer1_latch else sub16 v.timer1_counter 1;
    timer2_counter = sub16 v.timer2_counter 1;
    reload_timer1_latch = false;
  }

  unfoldable pub expire_timer1 : Via W → Via W
  unfolding set_irq_flag
  expire_timer1 v =
      if v.timer1_counter == 0
      then (let v1 = if v.timer1_active then set_irq_flag 0x40 v else v in
          record v1 {
            reload_timer1_latch = true;
            timer1_active = nz (bit_and v1.auxiliary_control_register 0x40);
          })
      else v

  unfoldable pub expire_timer2 : Via W → Via W
  unfolding set_irq_flag
  expire_timer2 v =
      if (v.timer2_counter == 0) && v.timer2_active
      then record (set_irq_flag 0x20 v) { timer2_active = false }
      else v

  -- The start of a shift cycle: the clock falls, the register rotates to the left, and its lowest
  -- bit is put on CB2.
  unfoldable pub clock_down : Via W → Via W
  unfolding drive_cb
  clock_down v =
      let v1 = drive_cb (bit_and v.port_cb_state (not8 1)) v in
      let rotated = bit_or (u8 (v1.shift_register <<< 1)) (v1.shift_register >>> 7) in
      let v2 = drive_cb (bit_and rotated 1 <<< 1) (record v1 { shift_register = rotated }) in
      record v2 { shift_register_ticks_to_next_edge = 1 }

  -- Its end: the clock rises, and after the last bit the flag is set.
  unfoldable pub clock_up : Via W → Via W
  unfolding drive_cb set_irq_flag
  clock_up v =
      let v1 = drive_cb (bit_or v.port_cb_state 1) v in
      let remaining = sub8 v1.shift_register_shifts_remaining 1 in
      let v2 = record v1 { shift_register_shifts_remaining = remaining } in
      if remaining == 0
      then set_irq_flag 0x04 v2
      else record v2 { shift_register_ticks_to_next_edge = 1 }

  unfoldable pub shift : Via W → Via W
  unfolding clock_down clock_up
  shift v =
      if ltb 0 v.shift_register_shifts_remaining
      then (let left = sub8 v.shift_register_ticks_to_next_edge 1 in
          let v1 = record v { shift_register_ticks_to_next_edge = left } in
          if left == 0
          then (if nz (bit_and v1.port_cb_state 1) then clock_down v1 else clock_up v1)
          else v1)
      else v

  unfoldable pub tick : Via W → Via W
  unfolding count_down expire_timer1 expire_timer2 shift
  tick v = shift (expire_timer2 (expire_timer1 (count_down v)))

  -- `uint16_t offset = address - base_address_`
  unfoldable pub offset_of : ℕ → Via W → ℕ
  offset_of address v = sub16 address v.base_address

  unfoldable pub read : ℕ → Via W → ℕ × Via W
  unfolding clear_irq_flag offset_of read_input_register read_data_direction_register
  read address v =
      switch (offset_of address v)
        ((0, (read_input_register v.port_b, v))
          ∷ (1, (read_input_register v.port_a, clear_irq_flag 0x02 v))
          ∷ (2, (read_data_direction_register v.port_b, v))
          ∷ (3, (read_data_direction_register v.port_a, v))
          ∷ (4, (u8 v.timer1_counter, clear_irq_flag 0x40 v))
          ∷ (5, (v.timer1_counter >>> 8, v))
          ∷ (6, (u8 v.timer1_latch, v))
          ∷ (7, (v.timer1_latch >>> 8, v))
          ∷ (8, (u8 v.timer2_counter, clear_irq_flag 0x20 v))
          ∷ (9, (v.timer2_counter >>> 8, clear_irq_flag 0x20 v))
          ∷ (10, (v.shift_register, clear_irq_flag 0x04 v))
          ∷ (11, (v.auxiliary_control_register, v))
          ∷ (12, (v.peripheral_control_register, v))
          ∷ (14, (v.irq_enable_register, v))
          ∷ (13, (v.irq_flag_register, v))
          ∷ [])
        (0, v)
