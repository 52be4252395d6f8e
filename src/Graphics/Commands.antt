-- ===== src/Graphics/Commands.antt =====
-- `GraphicsState::HandleCommand`, a case at a time (graphics_state/graphics_state.cc).
use hd6301_thing.Common.{
  ℕ, zero, suc, ◌+◌, ◌-◌, ◌*◌, ◌/◌, ◌%◌, bit_and, nz, List, [], ◌∷◌, switch, set, replicate, ltb,
  ◌==◌, ◌&&◌, if◌then◌else◌, ◌<<<◌,
}
use hd6301_thing.Graphics.{
  GraphicsState, num_columns, num_rows, char_buf_size, color_plane_size_words,
}
use hd6301_thing.Graphics.Colors.{set_fg_color, set_bg_color, set_color, cursor_color_flip}

-- row_roll_ = (row_roll_ - 1) % kNumRows
unfoldable pub roll_up : GraphicsState → GraphicsState
roll_up g = record g { roll = (g.roll + 1) % num_rows }

-- charbuf_[cursor_pos_] = data & 0x7f
unfoldable pub put_char : ℕ → GraphicsState → GraphicsState
put_char value g = record g { charbuf = set g.charbuf g.cursor_pos (bit_and value 0x7f) }

unfoldable pub at_cursor : ℕ → GraphicsState → GraphicsState
at_cursor position g = record g { cursor_pos = position }

-- Between the two flips: the cursor goes to the position.
unfoldable pub move_cursor : ℕ → GraphicsState → GraphicsState
unfolding cursor_color_flip at_cursor
move_cursor position g = cursor_color_flip (at_cursor position (cursor_color_flip g))

unfoldable pub write_char : ℕ → GraphicsState → GraphicsState
unfolding put_char cursor_color_flip at_cursor roll_up
write_char value g =
    let g1 = cursor_color_flip (put_char value g) in
    let g2 = at_cursor ((g1.cursor_pos + 1) % char_buf_size) g1 in
    let g3 =
      if (g2.cursor_pos % num_columns == 0)
        && (g2.cursor_pos / num_columns == (num_rows + g2.roll) % num_rows)
      then roll_up g2
      else g2 in
    cursor_color_flip g3

-- memset(buffer + position, ' ', count)
unfoldable pub fill_spaces : ℕ → ℕ → List ℕ → List ℕ
fill_spaces zero position chars = chars
fill_spaces (suc count) position chars = fill_spaces count (suc position) (set chars position 0x20)

-- SetColor(position, 0xff, 0) for `count` positions.
unfoldable pub reset_colors : ℕ → ℕ → GraphicsState → GraphicsState
unfolding set_color
reset_colors zero position g = g
reset_colors (suc count) position g =
    reset_colors count (suc position) (set_color position 0xff 0 g)

-- The end of both row commands: the row at the cursor is cleared.
unfoldable pub clear_row_at_cursor : GraphicsState → GraphicsState
unfolding fill_spaces reset_colors cursor_color_flip
clear_row_at_cursor g =
    let g1 = record g { charbuf = fill_spaces num_columns g.cursor_pos g.charbuf } in
    cursor_color_flip (reset_colors num_columns g1.cursor_pos g1)

unfoldable pub clear_screen : GraphicsState → GraphicsState
unfolding cursor_color_flip
clear_screen g = cursor_color_flip (record g {
  charbuf = replicate char_buf_size 0x20;
  colorbuf = replicate (3 * color_plane_size_words) 0x33333333;
  cursor_pos = 0;
  roll = 0;
})

unfoldable pub clear_current_row : GraphicsState → GraphicsState
unfolding at_cursor clear_row_at_cursor
clear_current_row g = clear_row_at_cursor (at_cursor (g.cursor_pos - g.cursor_pos % num_columns) g)

unfoldable pub clear_next_row : GraphicsState → GraphicsState
unfolding at_cursor clear_row_at_cursor cursor_color_flip roll_up
clear_next_row g =
    let g1 = cursor_color_flip g in
    let g2 =
      if g1.cursor_pos / num_columns == (num_rows - 1 + g1.roll) % num_rows
      then roll_up g1
      else g1 in
    clear_row_at_cursor
      (at_cursor ((g2.cursor_pos - g2.cursor_pos % num_columns + num_columns) % char_buf_size) g2)

unfoldable pub clear : ℕ → GraphicsState → GraphicsState
unfolding clear_screen clear_current_row clear_next_row
clear value g =
    if value == 0
    then clear_screen g
    else (if value == 1 then clear_current_row g else (if value == 2 then clear_next_row g else g))

-- (cursor_pos_ + (signed char)data) % kCharBufSize, and kCharBufSize more if that is negative.
unfoldable pub moved_position : ℕ → ℕ → ℕ
moved_position position value =
    if ltb value 128
    then (position + value) % char_buf_size
    else (if ltb (position + value) 256
        then char_buf_size - (256 - (position + value))
        else (position + value - 256) % char_buf_size)

unfoldable pub set_hidden : ℕ → GraphicsState → GraphicsState
unfolding cursor_color_flip
set_hidden value g = cursor_color_flip (record (cursor_color_flip g) { cursor_hidden = nz value })

unfoldable pub color_at_cursor : ℕ → GraphicsState → GraphicsState
unfolding cursor_color_flip set_fg_color set_bg_color at_cursor
color_at_cursor value g =
    let g1 = cursor_color_flip g in
    let g2 =
      if bit_and value 0x40 == 0
      then set_fg_color g1.cursor_pos (bit_and value 0x3f) g1
      else set_bg_color g1.cursor_pos (bit_and value 0x3f) g1 in
    let g3 =
      if nz (bit_and value 0x80) then at_cursor ((g2.cursor_pos + 1) % char_buf_size) g2 else g2 in
    cursor_color_flip g3

unfoldable pub handle_command : ℕ → ℕ → GraphicsState → GraphicsState
unfolding write_char clear move_cursor moved_position put_char set_hidden color_at_cursor
handle_command command value g =
    switch command
      ((0, write_char value g)
        ∷ (1, clear value g)
        ∷ (2, move_cursor (moved_position g.cursor_pos value) g)
        ∷ (3, put_char value g)
        ∷ (4, move_cursor (g.cursor_pos - g.cursor_pos % num_columns + value % num_columns) g)
        ∷ (5, move_cursor (value % num_rows * num_columns + g.cursor_pos % num_columns) g)
        ∷ (6, record g { cursor_pos_high = value })
        ∷ (7, move_cursor ((g.cursor_pos_high <<< 8) + value) g)
        ∷ (8, set_hidden value g)
        ∷ (9, color_at_cursor value g)
        ∷ [])
      g
