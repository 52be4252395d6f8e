-- ===== src/Device/Glue.antt =====
-- emulator/w65c22_to_spi_glue.h and .cc: the logic between the W65C22, the SPI bus and the keyboard.
-- The glue is kept apart from the world W of the ports: its own clock and MISO ports, and those of
-- the adapter. The mutex is left out. The table of key codes is a parameter, as in Device/Keyboard.
pub mod Keys
pub mod Shown
pub mod Clock
pub mod Exchange
use hd6301_thing.Common.{
  ℕ, ◌+◌, Bool, true, false, not, ◌==◌, nz, bit, bit_and, bit_or, if◌then◌else◌, u8, ◌<<<◌, List,
  [], ◌∷◌, ◌++◌, Option,
}
use hd6301_thing.Common.Int.{ℤ, pos, predecessor, is_zero}
use hd6301_thing.Part.{Part}
use hd6301_thing.Device.Port.{
  IoPort, provide_inputs, read_input_register, write_output_register, write_data_direction_register,
}
use hd6301_thing.Device.Keyboard.{KeyEvent, event_bytes}

pub record Glue : Type 0 where
  pub clk_in_mask : ℕ
  pub output_switch_mask : ℕ
  pub keyboard_irq_mask : ℕ
  pub miso_shift_data : ℕ
  pub shift_count : ℕ
  pub clock_on_last_tick : Bool
  pub prev_clock : ℕ
  pub keyboard_tick_countdown : ℤ
  pub sd_card_data : ℕ
  pub keyboard_data_queue : List ℕ
  pub keyboard_data : ℕ
  pub output_keyboard_data : Bool

abbrev pub clk_pin : ℕ
clk_pin = 0

abbrev pub clk_bitmask : ℕ
clk_bitmask = 1

abbrev pub miso_bitmask : ℕ
miso_bitmask = 1

abbrev pub keyboard_byte_tick_interval : ℕ
keyboard_byte_tick_interval = 1000

-- The glue at construction, with the numbers of its pins.
unfoldable pub glue_at : ℕ → ℕ → ℕ → Glue
glue_at clk_in_pin output_switch_pin keyboard_irq_pin = record {
  clk_in_mask = u8 (1 <<< clk_in_pin);
  output_switch_mask = u8 (1 <<< output_switch_pin);
  keyboard_irq_mask = u8 (1 <<< keyboard_irq_pin);
  miso_shift_data = 0;
  shift_count = 0;
  clock_on_last_tick = false;
  prev_clock = 0;
  keyboard_tick_countdown = pos 0;
  sd_card_data = 0;
  keyboard_data_queue = [];
  keyboard_data = 0;
  output_keyboard_data = false;
}

-- The callback for the clock of the adapter.
unfoldable pub clk_bit_in : ℕ → Glue → Glue
clk_bit_in value g = record g {
  clock_on_last_tick = true;
  prev_clock = bit (not (bit_and value g.clk_in_mask == 1));
}

-- The bytes of an event are queued; each sets the countdown.
unfoldable pub push_all : List ℕ → Glue → Glue
push_all [] g = g
push_all (byte ∷ bytes) g = push_all bytes (record g {
  keyboard_data_queue = g.keyboard_data_queue ++ byte ∷ [];
  keyboard_tick_countdown = pos keyboard_byte_tick_interval;
})

unfoldable pub handle_keyboard_event : (ℕ → Option (List ℕ × List ℕ)) → KeyEvent → Glue → Glue
unfolding event_bytes push_all
handle_keyboard_event keymap event g = push_all (event_bytes keymap event) g

-- The ports that the glue acts on, in a world W.
pub record Ports (W A B C D : Type 0) : Type 0 where
  pub clk_out : Part W (IoPort A × A)
  pub miso : Part W (IoPort B × B)
  pub keyboard_irq : Part W (IoPort C × C)
  pub parallel_out : Part W (IoPort D × D)

module _ {W A B C D : Type 0} (p : Ports W A B C D) where
  -- The directions of the two ports of the glue.
  unfoldable pub set_directions : W → W
  unfolding write_data_direction_register
  set_directions w =
      let (clk_port, a) = p.clk_out.view w in
      let w1 = p.clk_out.put (write_data_direction_register clk_bitmask clk_port, a) w in
      let (miso_port, b) = p.miso.view w1 in
      p.miso.put (write_data_direction_register miso_bitmask miso_port, b) w1

  -- A byte for the adapter.
  unfoldable pub present : ℕ → W → W
  unfolding provide_inputs
  present value w = p.parallel_out.put (provide_inputs value 0xff (p.parallel_out.view w)) w

  -- The callback for the pin that selects the keyboard or the card.
  unfoldable pub switch_changed : ℕ → Glue × W → Glue × W
  unfolding present
  switch_changed value (g, w) =
      let keyboard = nz (bit_and value g.output_switch_mask) in
      (
        record g { output_keyboard_data = keyboard },
        present (if keyboard then g.keyboard_data else g.sd_card_data) w,
      )

  unfoldable pub miso_bit_in : ℕ → Glue × W → Glue × W
  unfolding present
  miso_bit_in value (g, w) =
      let sampled = bit (bit_and value miso_bitmask == miso_bitmask) in
      let shifted = u8 (bit_or (g.miso_shift_data <<< 1) sampled) in
      let g1 = record g { miso_shift_data = shifted; shift_count = g.shift_count + 1 } in
      if g1.shift_count == 8
      then (
        record g1 { shift_count = 0; sd_card_data = shifted },
        if g1.output_keyboard_data then w else present shifted w,
      )
      else (g1, w)

  -- A short edge on the pin of the keyboard.
  unfoldable pub pulse : ℕ → W → W
  unfolding provide_inputs
  pulse mask w =
      p.keyboard_irq.put (provide_inputs 0 mask (provide_inputs mask mask (p.keyboard_irq.view w)))
        w

  -- The front of the queue.
  unfoldable pub take_key : List ℕ → Glue × W → Glue × W
  unfolding pulse
  take_key [] (g, w) = (g, w)
  take_key (front ∷ rest) (g, w) = (
    record g {
      keyboard_data = front;
      keyboard_data_queue = rest;
      keyboard_tick_countdown = pos (keyboard_byte_tick_interval + 1);
    },
    pulse g.keyboard_irq_mask w,
  )

  unfoldable pub keyboard_tick : Glue × W → Glue × W
  unfolding take_key
  keyboard_tick (g, w) =
      let (g1, w1) =
        if is_zero g.keyboard_tick_countdown
        then take_key g.keyboard_data_queue (g, w)
        else (g, w) in
      (record g1 { keyboard_tick_countdown = predecessor g1.keyboard_tick_countdown }, w1)

  -- The clock of the last tick goes out; its rising edge samples MISO.
  unfoldable pub clock_tick : Glue × W → Glue × W
  unfolding miso_bit_in write_output_register read_input_register
  clock_tick (g, w) =
      let w1 =
        p.clk_out.put (write_output_register (u8 (g.prev_clock <<< clk_pin)) (p.clk_out.view w))
          w in
      let g1 = record g { clock_on_last_tick = false } in
      if g.clock_on_last_tick
      then (if g.prev_clock == 1
          then miso_bit_in (read_input_register (p.miso.view w1).0) (g1, w1)
          else (g1, w1))
      else (g, w)

  unfoldable pub tick : Glue × W → Glue × W
  unfolding clock_tick keyboard_tick
  tick s = keyboard_tick (clock_tick s)
