-- ===== src/Graphics/Writing.antt =====
-- What writing a character does to the display (graphics_state/graphics_state.cc, `HandleCommand`).
use hd6301_thing.Common.{
  ℕ, ◌+◌, ◌/◌, ◌%◌, ◌<◌, ◌≡◌, ◌≢◌, refl, ap, ◌∙◌, arith, Bool, true, false, bit_and, ◌==◌, ◌&&◌,
  if◌then◌else◌, ==_iff, get_or, get_or-set_self, get_or-set_ne, holds_below, holds_below→at,
}
use hd6301_thing.Graphics.{GraphicsState}
use hd6301_thing.Graphics.Colors.{cursor_color_flip}
use hd6301_thing.Graphics.Commands.{roll_up, put_char, at_cursor, write_char, handle_command}
use hd6301_thing.Graphics.Cursor.{IsOnScreen, flip-Recolored}

low_digits_table : holds_below (λ x. bit_and x 0x7f == x % 128) 256 ≡ true
unfolding holds_below
low_digits_table = refl

low_digits : (x : ℕ) → x < 256 → bit_and x 0x7f ≡ x % 128
low_digits x h = (==_iff _ _).0 (holds_below→at _ 256 x h low_digits_table)

roll_up-parts :
    (b : Bool) (g : GraphicsState)
    → ((if b then roll_up g else g).charbuf ≡ g.charbuf)
      × ((if b then roll_up g else g).cursor_pos ≡ g.cursor_pos)
unfolding roll_up
roll_up-parts true g = (refl, refl)
roll_up-parts false g = (refl, refl)

write_char-parts :
    (value : ℕ) (g : GraphicsState)
    → ((write_char value g).charbuf ≡ (put_char value g).charbuf)
      × ((write_char value g).cursor_pos ≡ (g.cursor_pos + 1) % 4000)
unfolding write_char
write_char-parts value g =
    let g1 = cursor_color_flip (put_char value g) in
    let r1 = flip-Recolored (put_char value g) in
    let g2 = at_cursor ((g1.cursor_pos + 1) % 4000) g1 in
    let wrapped = (g2.cursor_pos % 100 == 0) && (g2.cursor_pos / 100 == (40 + g2.roll) % 40) in
    let rolled = roll_up-parts wrapped g2 in
    let r3 = flip-Recolored (if wrapped then roll_up g2 else g2) in
    (r3.2 ∙ (rolled.0 ∙ r1.2), r3.0 ∙ (rolled.1 ∙ ap (λ n. (n + 1) % 4000) r1.0))

-- Command 0 writes the low seven bits of its byte at the cursor, leaves every other character, and
-- moves the cursor to the next position, from the last to the first.
pub write_char_lem :
    (value : ℕ) (g : GraphicsState)
    → value < 256
    → IsOnScreen g
    → (get_or (handle_command 0 value g).charbuf g.cursor_pos 0 ≡ value % 128)
      × ((p : ℕ)
          → g.cursor_pos ≢ p
          → get_or (handle_command 0 value g).charbuf p 0 ≡ get_or g.charbuf p 0)
      × ((handle_command 0 value g).cursor_pos ≡ (g.cursor_pos + 1) % 4000)
unfolding handle_command put_char
write_char_lem value g h on =
    let parts = write_char-parts value g in
    (
      ap (λ chars. get_or chars g.cursor_pos 0) parts.0
          ∙ (get_or-set_self g.charbuf g.cursor_pos (bit_and value 0x7f) 0 (omega (arith, on))
              ∙ low_digits value h),
      λ p ne.
          ap (λ chars. get_or chars p 0) parts.0
          ∙ get_or-set_ne g.charbuf g.cursor_pos p (bit_and value 0x7f) 0 ne,
      parts.1,
    )
