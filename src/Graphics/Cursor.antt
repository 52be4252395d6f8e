-- ===== src/Graphics/Cursor.antt =====
-- The cursor of the display stays on it, and the buffers keep their sizes
-- (graphics_state/graphics_state.cc, `HandleCommand`).
use hd6301_thing.Common.{
  ℕ, zero, suc, ◌+◌, ◌-◌, ◌*◌, ◌/◌, ◌%◌, ◌<◌, ◌≡◌, ◌↔◌, refl, ◌∙◌, arith, Bool, true, false,
  Bool-cases, inl, inr, nz, bit_and, List, length, length-set, length-replicate, ◌==◌,
  if◌then◌else◌, ◌>>>◌, set, ==_iff, excess8, replicate,
}
use hd6301_thing.Graphics.{GraphicsState, num_columns, color_plane_size_words}
use hd6301_thing.Graphics.Colors.{
  set_planes, set_color_bits, set_fg_color, set_bg_color, set_color, flip_planes, cursor_color_flip,
  padded,
}
use hd6301_thing.Graphics.Commands.{
  roll_up, put_char, at_cursor, move_cursor, write_char, fill_spaces, reset_colors,
  clear_row_at_cursor, clear_screen, clear_current_row, clear_next_row, clear, moved_position,
  set_hidden, color_at_cursor, handle_command,
}

-- The cursor is on the display, the roll is one of the rows, and the buffers have their sizes.
abbrev pub IsOnScreen : GraphicsState → Type 0
IsOnScreen g =
    (g.cursor_pos < 4000) × (g.roll < 40) × (length g.charbuf ≡ 4000) × (length g.colorbuf ≡ 1560)

-- Colouring changes the planes alone, and not their size.
abbrev pub Recolored : GraphicsState → GraphicsState → Type 0
Recolored g h =
    (h.cursor_pos ≡ g.cursor_pos)
    × (h.roll ≡ g.roll)
    × (h.charbuf ≡ g.charbuf)
    × (length h.colorbuf ≡ length g.colorbuf)

length-set_planes :
    (planes w b color : ℕ) (words : List ℕ)
    → length (set_planes planes w b color words) ≡ length words
unfolding set_planes
length-set_planes zero w b color words = refl
length-set_planes (suc planes) w b color words =
    length-set_planes planes (w + color_plane_size_words) b (color >>> 2) _ ∙ length-set words w _

length-flip_planes :
    (planes w b : ℕ) (words : List ℕ) → length (flip_planes planes w b words) ≡ length words
unfolding flip_planes
length-flip_planes zero w b words = refl
length-flip_planes (suc planes) w b words =
    length-flip_planes planes (w + color_plane_size_words) b _ ∙ length-set words w _

set_color_bits-Recolored :
    (p color o : ℕ) (g : GraphicsState) → Recolored g (set_color_bits p color o g)
unfolding set_color_bits
set_color_bits-Recolored p color o g =
    let size = length-set_planes 3 (padded p / 8) (padded p % 8 * 4 + o) color g.colorbuf in
    ground arith

set_color_bits-IsOnScreen :
    (p color o : ℕ) (g : GraphicsState) → IsOnScreen g → IsOnScreen (set_color_bits p color o g)
set_color_bits-IsOnScreen p color o g h =
    let r = set_color_bits-Recolored p color o g in ground arith

pub flip-Recolored : (g : GraphicsState) → Recolored g (cursor_color_flip g)
unfolding cursor_color_flip
flip-Recolored g =
    let size =
      length-flip_planes 3 (padded g.cursor_pos / 8) (padded g.cursor_pos % 8 * 4) g.colorbuf in
    ground arith

flip-IsOnScreen : (g : GraphicsState) → IsOnScreen g → IsOnScreen (cursor_color_flip g)
flip-IsOnScreen g h = let r = flip-Recolored g in ground arith

-- Both branches keep what they reach.
either-IsOnScreen :
    (b : Bool) (g h : GraphicsState) → IsOnScreen g → IsOnScreen h → IsOnScreen (if b then g else h)
either-IsOnScreen true g h hg hh = hg
either-IsOnScreen false g h hg hh = hh

case-IsOnScreen :
    (n label : ℕ) (g h : GraphicsState)
    → (n ≡ label → IsOnScreen g)
    → IsOnScreen h
    → IsOnScreen (if n == label then g else h)
case-IsOnScreen n label g h hg hh = elim (Bool-cases (n == label)) [
  | inl e ↦ rw (e) (hg ((==_iff n label).0 e))
  | inr e ↦ rw (e) hh
]

roll_up-IsOnScreen : (g : GraphicsState) → IsOnScreen g → IsOnScreen (roll_up g)
unfolding roll_up
roll_up-IsOnScreen g h = ground arith

at_cursor-IsOnScreen :
    (p : ℕ) (g : GraphicsState) → p < 4000 → IsOnScreen g → IsOnScreen (at_cursor p g)
unfolding at_cursor
at_cursor-IsOnScreen p g lt h = ground arith

move_cursor-IsOnScreen :
    (p : ℕ) (g : GraphicsState) → p < 4000 → IsOnScreen g → IsOnScreen (move_cursor p g)
unfolding move_cursor
move_cursor-IsOnScreen p g lt h =
    flip-IsOnScreen _ (at_cursor-IsOnScreen p (cursor_color_flip g) lt (flip-IsOnScreen g h))

put_char-IsOnScreen : (value : ℕ) (g : GraphicsState) → IsOnScreen g → IsOnScreen (put_char value g)
unfolding put_char
put_char-IsOnScreen value g h =
    let size = length-set g.charbuf g.cursor_pos (bit_and value 0x7f) in ground arith

write_char-IsOnScreen :
    (value : ℕ) (g : GraphicsState) → IsOnScreen g → IsOnScreen (write_char value g)
unfolding write_char
write_char-IsOnScreen value g h =
    let g1 = cursor_color_flip (put_char value g) in
    let h1 = flip-IsOnScreen (put_char value g) (put_char-IsOnScreen value g h) in
    let g2 = at_cursor ((g1.cursor_pos + 1) % 4000) g1 in
    let h2 = at_cursor-IsOnScreen ((g1.cursor_pos + 1) % 4000) g1 (omega arith) h1 in
    flip-IsOnScreen _ (either-IsOnScreen _ (roll_up g2) g2 (roll_up-IsOnScreen g2 h2) h2)

length-fill_spaces :
    (count p : ℕ) (chars : List ℕ) → length (fill_spaces count p chars) ≡ length chars
unfolding fill_spaces
length-fill_spaces zero p chars = refl
length-fill_spaces (suc count) p chars =
    length-fill_spaces count (suc p) (set chars p 0x20) ∙ length-set chars p 0x20

set_color-IsOnScreen :
    (p fg bg : ℕ) (g : GraphicsState) → IsOnScreen g → IsOnScreen (set_color p fg bg g)
unfolding set_color set_fg_color set_bg_color
set_color-IsOnScreen p fg bg g h =
    let r1 = set_color_bits-Recolored p fg 0 g in
    let r2 = set_color_bits-Recolored p bg 2 (set_color_bits p fg 0 g) in ground arith

reset_colors-IsOnScreen :
    (count p : ℕ) (g : GraphicsState) → IsOnScreen g → IsOnScreen (reset_colors count p g)
unfolding reset_colors
reset_colors-IsOnScreen zero p g h = h
reset_colors-IsOnScreen (suc count) p g h =
    reset_colors-IsOnScreen count (suc p) (set_color p 0xff 0 g) (set_color-IsOnScreen p 0xff 0 g h)

clear_row-IsOnScreen : (g : GraphicsState) → IsOnScreen g → IsOnScreen (clear_row_at_cursor g)
unfolding clear_row_at_cursor
clear_row-IsOnScreen g (pos, roll, chars, colors) =
    let filled = record g { charbuf = fill_spaces num_columns g.cursor_pos g.charbuf } in
    flip-IsOnScreen (reset_colors num_columns g.cursor_pos filled) (
      reset_colors-IsOnScreen num_columns g.cursor_pos filled
        (pos, roll, length-fill_spaces num_columns g.cursor_pos g.charbuf ∙ chars, colors))

clear_screen-IsOnScreen : (g : GraphicsState) → IsOnScreen (clear_screen g)
unfolding clear_screen
clear_screen-IsOnScreen g =
    flip-IsOnScreen
      (record g {
        charbuf = replicate 4000 0x20;
        colorbuf = replicate 1560 0x33333333;
        cursor_pos = 0;
        roll = 0;
      })
      (
        omega arith,
        omega arith,
        length-replicate {A = ℕ} 4000 0x20,
        length-replicate {A = ℕ} 1560 0x33333333,
      )

clear_next_row-IsOnScreen : (g : GraphicsState) → IsOnScreen g → IsOnScreen (clear_next_row g)
unfolding clear_next_row
clear_next_row-IsOnScreen g h =
    let g1 = cursor_color_flip g in
    let h1 = flip-IsOnScreen g h in
    let g2 = if g1.cursor_pos / 100 == (39 + g1.roll) % 40 then roll_up g1 else g1 in
    let h2 = either-IsOnScreen _ (roll_up g1) g1 (roll_up-IsOnScreen g1 h1) h1 in
    let next = (g2.cursor_pos - g2.cursor_pos % 100 + 100) % 4000 in
    clear_row-IsOnScreen (at_cursor next g2) (at_cursor-IsOnScreen next g2 (omega arith) h2)

clear-IsOnScreen : (value : ℕ) (g : GraphicsState) → IsOnScreen g → IsOnScreen (clear value g)
unfolding clear clear_current_row
clear-IsOnScreen value g h =
    let screen = clear_screen-IsOnScreen g in
    let next = clear_next_row-IsOnScreen g h in
    let start = g.cursor_pos - g.cursor_pos % 100 in
    let current =
      clear_row-IsOnScreen (at_cursor start g) (at_cursor-IsOnScreen start g (omega arith) h) in
    either-IsOnScreen (value == 0) _ _ screen
      (either-IsOnScreen (value == 1) _ _ current (either-IsOnScreen (value == 2) _ _ next h))

moved_position-lt : (p value : ℕ) → moved_position p value < 4000
unfolding moved_position
moved_position-lt p value = ground arith

set_hidden-IsOnScreen :
    (value : ℕ) (g : GraphicsState) → IsOnScreen g → IsOnScreen (set_hidden value g)
unfolding set_hidden
set_hidden-IsOnScreen value g h =
    flip-IsOnScreen (record (cursor_color_flip g) { cursor_hidden = nz value })
      (flip-IsOnScreen g h)

color_at_cursor-IsOnScreen :
    (value : ℕ) (g : GraphicsState) → IsOnScreen g → IsOnScreen (color_at_cursor value g)
unfolding color_at_cursor set_fg_color set_bg_color
color_at_cursor-IsOnScreen value g h =
    let g1 = cursor_color_flip g in
    let h1 = flip-IsOnScreen g h in
    let color = bit_and value 0x3f in
    let fg = set_color_bits-IsOnScreen g1.cursor_pos color 0 g1 h1 in
    let bg = set_color_bits-IsOnScreen g1.cursor_pos color 2 g1 h1 in
    let g2 =
      if bit_and value 0x40 == 0
      then set_color_bits g1.cursor_pos color 0 g1
      else set_color_bits g1.cursor_pos color 2 g1 in
    let h2 = either-IsOnScreen (bit_and value 0x40 == 0) _ _ fg bg in
    let after = at_cursor-IsOnScreen ((g2.cursor_pos + 1) % 4000) g2 (omega arith) h2 in
    flip-IsOnScreen _ (either-IsOnScreen (nz (bit_and value 0x80)) _ _ after h2)

-- A command other than 7 keeps the cursor on the display, the roll within the rows and the buffers
-- at their sizes; so does command 7 if the position that it sets is on the display.
pub handle_command-IsOnScreen :
    (command value : ℕ) (g : GraphicsState)
    → IsOnScreen g
    → (command ≡ 7 → g.cursor_pos_high * 256 + value < 4000)
    → IsOnScreen (handle_command command value g)
unfolding handle_command
handle_command-IsOnScreen command value g h low =
    either-IsOnScreen (command == 0) _ _ (write_char-IsOnScreen value g h) (
      either-IsOnScreen (command == 1) _ _ (clear-IsOnScreen value g h) (
        either-IsOnScreen (command == 2) _ _
          (move_cursor-IsOnScreen _ g (moved_position-lt g.cursor_pos value) h)
          (either-IsOnScreen (command == 3) _ _ (put_char-IsOnScreen value g h) (
            either-IsOnScreen (command == 4) _ _ (move_cursor-IsOnScreen _ g (omega arith) h) (
              either-IsOnScreen (command == 5) _ _ (move_cursor-IsOnScreen _ g (omega arith) h) (
                either-IsOnScreen (command == 6) _ _ h (
                  case-IsOnScreen command 7 _ _ (λ e. move_cursor-IsOnScreen _ g (low e) h)
                    (either-IsOnScreen (command == 8) _ _ (set_hidden-IsOnScreen value g h) (
                      either-IsOnScreen (command == 9) _ _ (color_at_cursor-IsOnScreen value g h)
                        h)))))))))

moved-at : (p : ℕ) (g : GraphicsState) → (move_cursor p g).cursor_pos ≡ p
unfolding move_cursor at_cursor
moved-at p g = (flip-Recolored (record (cursor_color_flip g) { cursor_pos = p })).0

-- The delta commands move the cursor by a signed byte, round the display; `excess8 value` is the
-- byte as a signed number, with 128 added.
pub moved_position_lem :
    (position value : ℕ)
    → position < 4000
    → value < 256
    → moved_position position value ≡ (position + 3872 + excess8 value) % 4000
unfolding moved_position
moved_position_lem position value h k = ground arith

-- Commands 6 and 7 with a high and a low byte put the cursor at high * 256 + low, so that a display
-- in order stays so exactly when that is below 4000.
pub set_position_lem :
    (high low : ℕ) (g : GraphicsState)
    → IsOnScreen g
    → ((handle_command 7 low (handle_command 6 high g)).cursor_pos ≡ high * 256 + low)
      × (IsOnScreen (handle_command 7 low (handle_command 6 high g)) ↔ (high * 256 + low < 4000))
unfolding handle_command
set_position_lem high low g h =
    let r = moved-at (high * 256 + low) (record g { cursor_pos_high = high }) in
    (
      r,
      (
        λ on. rw (← r) on.0,
        λ lt. move_cursor-IsOnScreen (high * 256 + low) (record g { cursor_pos_high = high }) lt h,
      ),
    )
