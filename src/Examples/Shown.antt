-- ===== src/Examples/Shown.antt =====
-- The theorems on what is shown and heard, at concrete states.
use hd6301_thing.Common.{
  ℕ, ◌+◌, ◌*◌, ◌/◌, ◌%◌, ◌<◌, ◌≤◌, ◌≡◌, ◌↔◌, refl, arith, ◌&&◌, leb, ltb, if◌then◌else◌, false, [],
  ◌∷◌, replicate,
}
use hd6301_thing.Graphics.{GraphicsState}
use hd6301_thing.Screen.{Frame, Rect, render_console}
use hd6301_thing.Screen.Pixels.{pixel, shown, Fills}
use hd6301_thing.Screen.Frame.{row_at, render_console-shown}
use hd6301_thing.Scanout.{core1_scanline_callback}
use hd6301_thing.Scanout.Agreement.{scan_after, core1_scanline_callback_lem}
use hd6301_thing.Sound.{sample_count, buffer_size, bytes_per_sample}
use hd6301_thing.Sound.Buffer.{sample_count_lem}

-- A display that was rolled up by three rows.
abbrev rolled : GraphicsState
rolled = record {
  colorbuf = replicate 1560 0x33333333;
  charbuf = replicate 4000 0x41;
  cursor_pos = 0;
  cursor_pos_high = 0;
  cursor_hidden = false;
  roll = 3;
}

-- Pixels filled one by one, by their place.
abbrev fill : Rect → ℕ → Frame → Frame
fill r color frame k =
    if leb r.x (k % 800)
      && ltb (k % 800) (r.x + r.w)
      && leb r.y (k / 800)
      && ltb (k / 800) (r.y + r.h)
    then color
    else frame k

fill-Fills : Fills fill
fill-Fills r color u v frame hu hv = rw (column, line) refl
  where
    column : pixel v u % 800 ≡ u
    column = omega arith

    line : pixel v u / 800 ≡ v
    line = omega arith

-- Every other column of every character is set.
abbrev stripes : ℕ → ℕ
stripes index = 0x55

render_console-shown_example :
    render_console stripes fill rolled (λ k. 0) (pixel 599 42)
    ≡ shown stripes rolled (row_at 599 rolled * 100 + 42 / 8) (599 % 15) (42 % 8)
render_console-shown_example =
    render_console-shown stripes fill fill-Fills 42 599 rolled (λ k. 0) (omega arith) (omega arith)
      (omega arith)

row_of_last_line : row_at 599 rolled ≡ 2
row_of_last_line = refl

core1_scanline_callback_lem_example :
    (core1_scanline_callback rolled (scan_after (λ n. rolled) 1234)).0
    ≡ record { charbuf_offset = 500; colorbuf_offset = 65; plane = 0; font_offset = 512 }
      ∷ record { charbuf_offset = 500; colorbuf_offset = 585; plane = 1; font_offset = 512 }
      ∷ record { charbuf_offset = 500; colorbuf_offset = 1105; plane = 2; font_offset = 512 }
      ∷ []
core1_scanline_callback_lem_example = core1_scanline_callback_lem (λ n. rolled) 1234 (omega arith)

sample_count_lem_example :
    ((sample_count 512 8192 * bytes_per_sample ≤ buffer_size) ↔ (512 < 4100))
    × (512 < sample_count 512 8192 * bytes_per_sample + bytes_per_sample)
    × (sample_count 512 8192 * bytes_per_sample ≤ 8192)
sample_count_lem_example = sample_count_lem 512 8192 (omega arith)
