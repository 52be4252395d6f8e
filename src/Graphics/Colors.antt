-- ===== src/Graphics/Colors.antt =====
-- Colours of `GraphicsState`: the planes, and the flip of the cursor
-- (graphics_state/graphics_state.cc). An access outside a buffer, which C++ leaves undefined, reads
-- 0 and writes nothing.
use hd6301_thing.Common.{
  ℕ, zero, suc, ◌+◌, ◌-◌, ◌*◌, ◌/◌, ◌%◌, bit_and, bit_or, List, get_or, set, leb, if◌then◌else◌,
  ◌<<<◌, ◌>>>◌, u8, u32,
}
use hd6301_thing.Graphics.{GraphicsState, num_columns, char_buf_size, color_plane_size_words}

-- The position with the padding of the lines before it, in characters.
unfoldable pub padded : ℕ → ℕ
padded position = position + position / num_columns * 4

-- ~(bits << index) in 32 bits.
unfoldable pub clear_mask : ℕ → ℕ → ℕ
clear_mask bits index = 0xffffffff - u32 (bits <<< index)

-- The loop over the planes of `SetColorBits`, with `planes` left.
unfoldable pub set_planes : ℕ → ℕ → ℕ → ℕ → List ℕ → List ℕ
unfolding clear_mask
set_planes zero word_index bit_index color words = words
set_planes (suc planes) word_index bit_index color words =
    set_planes planes (word_index + color_plane_size_words) bit_index (color >>> 2) (
      set words word_index (
        bit_or (bit_and (get_or words word_index 0) (clear_mask 3 bit_index))
          (u32 (bit_and color 3 <<< bit_index))))

unfoldable pub set_color_bits : ℕ → ℕ → ℕ → GraphicsState → GraphicsState
unfolding set_planes padded
set_color_bits position color bit_offset g = if leb char_buf_size position then g else record g {
  colorbuf =
      set_planes 3 (padded position / 8) (padded position % 8 * 4 + bit_offset) color g.colorbuf;
}

unfoldable pub set_fg_color : ℕ → ℕ → GraphicsState → GraphicsState
unfolding set_color_bits
set_fg_color position fg g = set_color_bits position fg 0 g

unfoldable pub set_bg_color : ℕ → ℕ → GraphicsState → GraphicsState
unfolding set_color_bits
set_bg_color position bg g = set_color_bits position bg 2 g

unfoldable pub set_color : ℕ → ℕ → ℕ → GraphicsState → GraphicsState
unfolding set_fg_color set_bg_color
set_color position fg bg g = set_bg_color position bg (set_fg_color position fg g)

-- One word of the flip: foreground and background of a character change places.
unfoldable pub flip_word : ℕ → ℕ → ℕ
unfolding clear_mask
flip_word bit_index color =
    let bg = bit_and color (u32 (0xc <<< bit_index)) >>> 2 in
    let fg = u32 (bit_and color (u32 (0x3 <<< bit_index)) <<< 2) in
    bit_or (bit_or (bit_and color (clear_mask 0xf bit_index)) bg) fg

unfoldable pub flip_planes : ℕ → ℕ → ℕ → List ℕ → List ℕ
unfolding flip_word
flip_planes zero word_index bit_index words = words
flip_planes (suc planes) word_index bit_index words =
    flip_planes planes (word_index + color_plane_size_words) bit_index
      (set words word_index (flip_word bit_index (get_or words word_index 0)))

unfoldable pub cursor_color_flip : GraphicsState → GraphicsState
unfolding flip_planes padded
cursor_color_flip g = if g.cursor_hidden then g else record g {
  colorbuf = flip_planes 3 (padded g.cursor_pos / 8) (padded g.cursor_pos % 8 * 4) g.colorbuf;
}

-- The loops of `GetBackgroundColor` (from bit 2) and `GetForegroundColor` (from bit 0), from plane
-- `plane` on.
unfoldable pub get_planes : ℕ → ℕ → ℕ → ℕ → List ℕ → ℕ
get_planes zero plane word_index bit_index words = 0
get_planes (suc planes) plane word_index bit_index words =
    bit_or
      (u8 (
        ((bit_and (get_or words (word_index + plane * color_plane_size_words) 0)
            (u32 (3 <<< bit_index)))
          >>> bit_index)
        <<< (2 * plane)))
      (get_planes planes (suc plane) word_index bit_index words)

unfoldable pub get_background_color : ℕ → GraphicsState → ℕ
unfolding get_planes padded
get_background_color position g =
    if leb char_buf_size position
    then 0
    else get_planes 3 0 (padded position / 8) (padded position % 8 * 4 + 2) g.colorbuf

unfoldable pub get_foreground_color : ℕ → GraphicsState → ℕ
unfolding get_planes padded
get_foreground_color position g =
    if leb char_buf_size position
    then 0
    else get_planes 3 0 (padded position / 8) (padded position % 8 * 4) g.colorbuf
