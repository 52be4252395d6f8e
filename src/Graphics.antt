-- ===== src/Graphics.antt =====
-- graphics_state/graphics_state.h and .cc: the text display. Characters, their colours in three
-- planes of 32-bit words, the cursor, and the roll of the rows.
pub mod ColorBits
pub mod ReadBack
pub mod Colors
pub mod Commands
pub mod Cursor
pub mod Writing
use hd6301_thing.Common.{ℕ, Bool, List}

-- `row_roll_` is 0 or negative; `roll` is its negation.
pub record GraphicsState : Type 0 where
  pub colorbuf : List ℕ
  pub charbuf : List ℕ
  pub cursor_pos : ℕ
  pub cursor_pos_high : ℕ
  pub cursor_hidden : Bool
  pub roll : ℕ

abbrev pub num_columns : ℕ
num_columns = 100

abbrev pub num_rows : ℕ
num_rows = 40

abbrev pub char_buf_size : ℕ
char_buf_size = 4000

abbrev pub color_plane_size_words : ℕ
color_plane_size_words = 520
