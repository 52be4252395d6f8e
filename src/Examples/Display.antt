-- ===== src/Examples/Display.antt =====
-- The theorems on the display at a concrete state.
use hd6301_thing.Common.{
  ℕ, ◌<◌, ◌≡◌, ◌≢◌, ◌↔◌, arith, refl, false, replicate, length-replicate, get_or,
}
use hd6301_thing.Graphics.{GraphicsState}
use hd6301_thing.Graphics.Colors.{get_foreground_color, get_background_color, set_color}
use hd6301_thing.Graphics.ReadBack.{get_color-set_color}
use hd6301_thing.Graphics.Commands.{handle_command}
use hd6301_thing.Graphics.Cursor.{IsOnScreen, handle_command-IsOnScreen, set_position_lem}
use hd6301_thing.Graphics.Writing.{write_char_lem}

-- The last position of a blank display.
abbrev last_position : GraphicsState
last_position = record {
  colorbuf = replicate 1560 0x33333333;
  charbuf = replicate 4000 0x20;
  cursor_pos = 3999;
  cursor_pos_high = 15;
  cursor_hidden = false;
  roll = 0;
}

last_position-IsOnScreen : IsOnScreen last_position
last_position-IsOnScreen = (
  omega arith,
  omega arith,
  length-replicate {A = ℕ} 4000 0x20,
  length-replicate {A = ℕ} 1560 0x33333333,
)

handle_command-IsOnScreen_example : IsOnScreen (handle_command 0 65 last_position)
handle_command-IsOnScreen_example =
    handle_command-IsOnScreen 0 65 last_position last_position-IsOnScreen (λ e. omega arith)

set_position_lem_example :
    ((handle_command 7 160 (handle_command 6 15 last_position)).cursor_pos ≡ 4000)
    × (IsOnScreen (handle_command 7 160 (handle_command 6 15 last_position)) ↔ (4000 < 4000))
set_position_lem_example = set_position_lem 15 160 last_position last_position-IsOnScreen

write_char_lem_example :
    (get_or (handle_command 0 193 last_position).charbuf 3999 0 ≡ 65)
    × ((p : ℕ)
        → 3999 ≢ p
        → get_or (handle_command 0 193 last_position).charbuf p 0
          ≡ get_or last_position.charbuf p 0)
    × ((handle_command 0 193 last_position).cursor_pos ≡ 0)
write_char_lem_example = write_char_lem 193 last_position (omega arith) last_position-IsOnScreen

-- White on a blank display.
white : get_foreground_color 0 last_position ≡ 63
unfolding get_foreground_color
white = refl

get_color-set_color_example :
    let g = set_color 1234 0b011011 0b100110 last_position in
    (get_foreground_color 1234 g ≡ 0b011011) × (get_background_color 1234 g ≡ 0b100110)
get_color-set_color_example =
    get_color-set_color 1234 0b011011 0b100110 last_position (omega arith) (omega arith)
      (omega arith) (length-replicate {A = ℕ} 1560 0x33333333)
