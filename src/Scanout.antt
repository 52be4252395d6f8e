-- ===== src/Scanout.antt =====
-- pico_graphics/pico_graphics.cpp: the firmware that shows the display over DVI. The reversal of the
-- bits of a word by the SDK of the Pico is a parameter; the encoder of a line is PicoDVI's, so that
-- the calls of it are kept, with their arguments as offsets into the buffers.
pub mod Agreement
use hd6301_thing.Common.{
  ℕ, zero, suc, ◌+◌, ◌*◌, ◌/◌, ◌%◌, bit_and, ◌==◌, if◌then◌else◌, List, [], ◌∷◌, u8, ◌<<<◌, ◌>>>◌,
}
use hd6301_thing.Graphics.{GraphicsState, num_columns, color_plane_size_words}
use hd6301_thing.Graphics.Commands.{handle_command}
use hd6301_thing.Screen.{frame_height, font_char_height, font_num_chars}

abbrev pub color_plane_line_words : ℕ
color_plane_line_words = 13

abbrev pub d7_pin : ℕ
d7_pin = 8

abbrev pub d_mask : ℕ
d_mask = 0xff <<< d7_pin

abbrev pub a5_pin : ℕ
a5_pin = 1

abbrev pub a_mask : ℕ
a_mask = 0x3f <<< a5_pin

-- A call of `tmds_encode_font_2bpp`: where the characters, the colours and the font start.
pub record EncodeCall : Type 0 where
  pub charbuf_offset : ℕ
  pub colorbuf_offset : ℕ
  pub plane : ℕ
  pub font_offset : ℕ

-- The static variables of core1_scanline_callback; the roll is negated, as in the display.
pub record Scan : Type 0 where
  pub screen_y : ℕ
  pub roll_y : ℕ

abbrev pub scan_start : Scan
scan_start = record { screen_y = 0; roll_y = 0 }

unfoldable pub encode_plane : ℕ → ℕ → EncodeCall
encode_plane logical_y plane = record {
  charbuf_offset = logical_y / font_char_height * num_columns;
  colorbuf_offset =
      logical_y / font_char_height * color_plane_line_words + plane * color_plane_size_words;
  plane = plane;
  font_offset = logical_y % font_char_height * font_num_chars;
}

unfoldable pub core1_scanline_callback : GraphicsState → Scan → List EncodeCall × Scan
unfolding encode_plane
core1_scanline_callback g s =
    let roll_y = if s.screen_y == 0 then g.roll * font_char_height else s.roll_y in
    let logical_y = (s.screen_y + roll_y + frame_height) % frame_height in
    (
      encode_plane logical_y 0 ∷ encode_plane logical_y 1 ∷ encode_plane logical_y 2 ∷ [],
      record { screen_y = (s.screen_y + 1) % frame_height; roll_y = roll_y },
    )

-- The byte and the command on the pins at a falling edge of the chip select.
unfoldable pub bus_irq_callback : (ℕ → ℕ) → ℕ → GraphicsState → GraphicsState
unfolding handle_command
bus_irq_callback reversed gpio_state g =
    let value = u8 (reversed (bit_and gpio_state d_mask >>> d7_pin) >>> 24) in
    let command = u8 (reversed (bit_and gpio_state a_mask >>> a5_pin) >>> 26) in
    handle_command command value g
