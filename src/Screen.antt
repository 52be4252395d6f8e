-- ===== src/Screen.antt =====
-- emulator/graphics.h and .cc: the display of the emulator, which draws the text into a frame of
-- pixels. The font, which is generated, and the function of SDL that fills a rectangle are
-- parameters; the palette, the texture and the window are SDL's.
pub mod Pixels
pub mod Frame
use hd6301_thing.Common.{
  ℕ, zero, suc, ◌+◌, ◌-◌, ◌*◌, ◌/◌, ◌%◌, Bool, true, false, nz, bit_and, if◌then◌else◌, ◌==◌, ◌&&◌,
  get_or, u8, ◌<<<◌,
}
use hd6301_thing.Graphics.{GraphicsState, num_columns, num_rows}
use hd6301_thing.Graphics.Colors.{get_foreground_color, get_background_color}
use hd6301_thing.Graphics.Commands.{handle_command}

abbrev pub frame_width : ℕ
frame_width = 800

abbrev pub frame_height : ℕ
frame_height = 600

abbrev pub font_char_width : ℕ
font_char_width = 8

abbrev pub font_char_height : ℕ
font_char_height = 15

abbrev pub font_num_chars : ℕ
font_num_chars = 128

-- The pixels of a surface, by their index.
abbrev pub Frame : Type 0
Frame = ℕ → ℕ

-- An SDL_Rect.
pub record Rect : Type 0 where
  pub x : ℕ
  pub y : ℕ
  pub w : ℕ
  pub h : ℕ

pub record Display : Type 0 where
  pub base_address : ℕ
  pub frame_surface : Frame
  pub graphics_state : GraphicsState
  pub graphics_state_dirty : Bool

-- `Graphics::write`.
unfoldable pub write : ℕ → ℕ → Display → Display
unfolding handle_command
write address value d = record d {
  graphics_state = handle_command (u8 (address + 65536 - d.base_address)) value d.graphics_state;
  graphics_state_dirty = true;
}

-- A pixel is written if its bit is set.
unfoldable pub draw_pixel : Bool → ℕ → ℕ → Frame → Frame
draw_pixel is_set foreground pixel frame k = if is_set && k == pixel then foreground else frame k

-- The columns j to 7 of a line of a character, from the pixel `start` on.
unfoldable pub draw_columns : ℕ → ℕ → ℕ → ℕ → ℕ → Frame → Frame
unfolding draw_pixel
draw_columns bits foreground start zero j frame = frame
draw_columns bits foreground start (suc left) j frame =
    draw_columns bits foreground start left (j + 1)
      (draw_pixel (nz (bit_and bits (1 <<< j))) foreground (start + j) frame)

module _ (font : ℕ → ℕ) where
  -- The lines from i on of a character at x and y.
  unfoldable pub draw_lines : ℕ → ℕ → ℕ → ℕ → ℕ → ℕ → Frame → Frame
  unfolding draw_columns
  draw_lines character foreground x y zero i frame = frame
  draw_lines character foreground x y (suc left) i frame =
      draw_lines character foreground x y left (i + 1) (
        draw_columns (font (character + i * font_num_chars)) foreground ((y + i) * frame_width + x)
          font_char_width 0 frame)

  module _ (fill_surface_rect : Rect → ℕ → Frame → Frame) where
    -- The roll is 0 or negative in the code; here it is taken off.
    unfoldable pub draw_character : ℕ → GraphicsState → Frame → Frame
    draw_character position g frame =
        let x = position % num_columns * font_char_width in
        let y =
          (position / num_columns * font_char_height + frame_height - g.roll * font_char_height)
          % frame_height in
        let rect : Rect = record { x = x; y = y; w = font_char_width; h = font_char_height } in
        draw_lines (u8 (get_or g.charbuf position 0)) (get_foreground_color position g) x y
          font_char_height 0 (fill_surface_rect rect (get_background_color position g) frame)

    -- The loops of `render_console`: the columns from j on of row i, and the rows from i on.
    unfoldable pub render_columns : ℕ → ℕ → ℕ → GraphicsState → Frame → Frame
    unfolding draw_character
    render_columns zero i j g frame = frame
    render_columns (suc left) i j g frame =
        render_columns left i (j + 1) g (draw_character (i * num_columns + j) g frame)

    unfoldable pub render_rows : ℕ → ℕ → GraphicsState → Frame → Frame
    unfolding render_columns
    render_rows zero i g frame = frame
    render_rows (suc left) i g frame =
        render_rows left (i + 1) g (render_columns num_columns i 0 g frame)

    unfoldable pub render_console : GraphicsState → Frame → Frame
    unfolding render_rows
    render_console g frame = render_rows num_rows 0 g frame

    -- The part of `render` before SDL shows the frame.
    unfoldable pub render : Display → Display
    unfolding render_console
    render d =
        if d.graphics_state_dirty
        then record d { frame_surface = render_console d.graphics_state d.frame_surface }
        else d
