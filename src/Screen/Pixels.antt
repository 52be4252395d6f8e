-- ===== src/Screen/Pixels.antt =====
-- The pixels that a character is drawn to (emulator/graphics.cc).
use hd6301_thing.Common.{
  ℕ, zero, suc, ◌+◌, ◌-◌, ◌*◌, ◌/◌, ◌%◌, ◌≤◌, ◌<◌, ◌≡◌, ◌≢◌, refl, sym, ap, ◌∙◌, arith, Bool, true,
  false, ◌&&◌, ltb, leb, nz, bit_and, if◌then◌else◌, ◌==◌, Bool-cases, ==_iff, inl, inr, ◌⊎◌,
  get_or, u8, ◌<<<◌,
}
use hd6301_thing.Graphics.{GraphicsState}
use hd6301_thing.Graphics.Colors.{get_foreground_color, get_background_color}
use hd6301_thing.Screen.{Frame, Rect, draw_pixel, draw_columns, draw_lines, draw_character}

draw_pixel_other :
    (b : Bool) (color pixel k : ℕ) (frame : Frame)
    → k ≢ pixel
    → draw_pixel b color pixel frame k ≡ frame k
unfolding draw_pixel
draw_pixel_other b color pixel k frame h = ground arith

draw_pixel_self :
    (b : Bool) (color pixel : ℕ) (frame : Frame)
    → draw_pixel b color pixel frame pixel ≡ (if b then color else frame pixel)
unfolding draw_pixel
draw_pixel_self b color pixel frame = ground arith

-- A pixel outside the columns keeps its value.
draw_columns-outside :
    (bits foreground start left j k : ℕ) (frame : Frame)
    → (k < start + j) ⊎ (start + j + left ≤ k)
    → draw_columns bits foreground start left j frame k ≡ frame k
unfolding draw_columns
draw_columns-outside bits foreground start zero j k frame h = refl
draw_columns-outside bits foreground start (suc left) j k frame h =
    draw_columns-outside bits foreground start left (j + 1) k
      (draw_pixel (nz (bit_and bits (1 <<< j))) foreground (start + j) frame) (omega arith)
    ∙ draw_pixel_other (nz (bit_and bits (1 <<< j))) foreground (start + j) k frame
        (λ e. absurd (omega arith))

-- A pixel in the columns shows the bit of its column.
draw_columns-inside :
    (bits foreground start left j c : ℕ) (frame : Frame)
    → j ≤ c
    → c < j + left
    → draw_columns bits foreground start left j frame (start + c)
      ≡ (if nz (bit_and bits (1 <<< c)) then foreground else frame (start + c))
unfolding draw_columns
draw_columns-inside bits foreground start zero j c frame h0 h1 = absurd (omega arith)
draw_columns-inside bits foreground start (suc left) j c frame h0 h1 =
    let drawn = draw_pixel (nz (bit_and bits (1 <<< j))) foreground (start + j) frame in
    elim (Bool-cases (c == j)) [
      | inl e ↦
          draw_columns-outside bits foreground start left (j + 1) (start + c) drawn (first e)
          ∙ ap (λ (n : ℕ). drawn (start + n)) (same e)
          ∙ draw_pixel_self (nz (bit_and bits (1 <<< j))) foreground (start + j) frame
          ∙ ap (λ (n : ℕ). if nz (bit_and bits (1 <<< n)) then foreground else frame (start + n))
              (sym (same e))
      | inr e ↦
          draw_columns-inside bits foreground start left (j + 1) c drawn (later e) (omega arith)
          ∙ ap (λ (v : ℕ). if nz (bit_and bits (1 <<< c)) then foreground else v)
              (draw_pixel_other (nz (bit_and bits (1 <<< j))) foreground (start + j) (start + c)
                frame (differs e))
    ]
  where
    same : (c == j) ≡ true → c ≡ j
    same e = (==_iff c j).0 e

    first : (c == j) ≡ true → (start + c < start + (j + 1)) ⊎ (start + (j + 1) + left ≤ start + c)
    first e = inl (omega (arith, same e))

    later : (c == j) ≡ false → j + 1 ≤ c
    later e = ground arith

    differs : (c == j) ≡ false → start + c ≢ start + j
    differs e f = absurd (omega (arith, later e, f))

-- A pixel at row `v` and column `u` of the frame.
abbrev pub pixel : ℕ → ℕ → ℕ
pixel v u = v * 800 + u

module _ (font : ℕ → ℕ) where
  draw_lines-outside :
      (character foreground x y left i u v : ℕ) (frame : Frame)
      → x + 8 ≤ 800
      → u < 800
      → (v < y + i) ⊎ ((y + i + left ≤ v) ⊎ ((u < x) ⊎ (x + 8 ≤ u)))
      → draw_lines font character foreground x y left i frame (pixel v u) ≡ frame (pixel v u)
  unfolding draw_lines
  draw_lines-outside character foreground x y zero i u v frame hx hu h = refl
  draw_lines-outside character foreground x y (suc left) i u v frame hx hu h =
      draw_lines-outside character foreground x y left (i + 1) u v
        (draw_columns (font (character + i * 128)) foreground ((y + i) * 800 + x) 8 0 frame) hx hu
        (omega arith)
      ∙ draw_columns-outside (font (character + i * 128)) foreground ((y + i) * 800 + x) 8 0
          (pixel v u) frame (omega arith)

  draw_lines-inside :
      (character foreground x y left i c l : ℕ) (frame : Frame)
      → x + 8 ≤ 800
      → c < 8
      → i ≤ l
      → l < i + left
      → draw_lines font character foreground x y left i frame (pixel (y + l) (x + c)) ≡ (
          if nz (bit_and (font (character + l * 128)) (1 <<< c))
          then foreground
          else frame (pixel (y + l) (x + c)))
  unfolding draw_lines
  draw_lines-inside character foreground x y zero i c l frame hx hc h0 h1 = absurd (omega arith)
  draw_lines-inside character foreground x y (suc left) i c l frame hx hc h0 h1 =
      let bits = font (character + i * 128) in
      let start = (y + i) * 800 + x in
      let drawn = draw_columns bits foreground start 8 0 frame in
      elim (Bool-cases (l == i)) [
        | inl e ↦
            draw_lines-outside character foreground x y left (i + 1) (x + c) (y + l) drawn hx
              (omega arith) (inl (omega (arith, same e)))
            ∙ ap drawn (index e)
            ∙ draw_columns-inside bits foreground start 8 0 c frame (omega arith) (omega arith)
            ∙ ap (λ (k : ℕ). if nz (bit_and bits (1 <<< c)) then foreground else frame k)
                (sym (index e))
            ∙ ap
                (λ (n : ℕ).
                  if nz (bit_and (font (character + n * 128)) (1 <<< c))
                  then foreground
                  else frame (pixel (y + l) (x + c)))
                (sym (same e))
        | inr e ↦
            draw_lines-inside character foreground x y left (i + 1) c l drawn hx hc (later e)
              (omega arith)
            ∙ ap
                (λ (k : ℕ).
                  if nz (bit_and (font (character + l * 128)) (1 <<< c)) then foreground else k)
                (draw_columns-outside bits foreground start 8 0 (pixel (y + l) (x + c)) frame
                  (inr (below e)))
      ]
    where
      same : (l == i) ≡ true → l ≡ i
      same e = (==_iff l i).0 e

      index : (l == i) ≡ true → pixel (y + l) (x + c) ≡ (y + i) * 800 + x + c
      index e = omega (arith, same e)

      later : (l == i) ≡ false → i + 1 ≤ l
      later e = ground arith

      below : (l == i) ≡ false → (y + i) * 800 + x + 0 + 8 ≤ pixel (y + l) (x + c)
      below e = omega (arith, later e)

-- The documented behaviour of SDL_FillSurfaceRect, for a rectangle within the frame.
abbrev pub Fills : (Rect → ℕ → Frame → Frame) → Type 0
Fills fill =
    (r : Rect) (color u v : ℕ) (frame : Frame)
    → u < 800
    → v < 600
    → fill r color frame (pixel v u) ≡ (
        if leb r.x u && ltb u (r.x + r.w) && leb r.y v && ltb v (r.y + r.h)
        then color
        else frame (pixel v u))

-- What a character shows at a line and a column of it.
abbrev pub shown : (ℕ → ℕ) → GraphicsState → ℕ → ℕ → ℕ → ℕ
shown font g position line column =
    if nz (bit_and (font (u8 (get_or g.charbuf position 0) + line * 128)) (1 <<< column))
    then get_foreground_color position g
    else get_background_color position g

-- The first line of the frame that a row of characters is drawn to.
abbrev pub top : ℕ → GraphicsState → ℕ
top row g = (row * 15 + 600 - g.roll * 15) % 600

module _ (font : ℕ → ℕ) (fill : Rect → ℕ → Frame → Frame) (fills : Fills fill) where
  -- The character on the background, at its place.
  abbrev filled : ℕ → ℕ → GraphicsState → Frame → Frame
  filled row column g frame =
      let r : Rect = record { x = column * 8; y = top row g; w = 8; h = 15 } in
      fill r (get_background_color (row * 100 + column) g) frame

  draw_character_lem :
      (row column : ℕ) (g : GraphicsState) (frame : Frame)
      → column < 100
      → draw_character font fill (row * 100 + column) g frame
        ≡ draw_lines font
            (u8 (get_or g.charbuf (row * 100 + column) 0))
            (get_foreground_color (row * 100 + column) g)
            (column * 8)
            (top row g)
            15
            0
            (filled row column g frame)
  unfolding draw_character
  draw_character_lem row column g frame h =
      ap
        (λ (a : ℕ).
          draw_lines font (u8 (get_or g.charbuf p 0)) (get_foreground_color p g) a
            ((p / 100 * 15 + 600 - g.roll * 15) % 600) 15 0
            (fill (rect a ((p / 100 * 15 + 600 - g.roll * 15) % 600)) (get_background_color p g)
              frame))
        at_column
      ∙ ap
          (λ (q : ℕ).
            draw_lines font (u8 (get_or g.charbuf p 0)) (get_foreground_color p g) (column * 8)
              ((q * 15 + 600 - g.roll * 15) % 600) 15 0
              (fill (rect (column * 8) ((q * 15 + 600 - g.roll * 15) % 600))
                (get_background_color p g) frame))
          at_row
    where
      p : ℕ
      p = row * 100 + column

      rect : ℕ → ℕ → Rect
      rect a b = record { x = a; y = b; w = 8; h = 15 }

      at_column : (row * 100 + column) % 100 * 8 ≡ column * 8
      at_column = omega arith

      at_row : (row * 100 + column) / 100 ≡ row
      at_row = omega arith

  pub draw_character-inside :
      (row column l c : ℕ) (g : GraphicsState) (frame : Frame)
      → column < 100
      → l < 15
      → c < 8
      → top row g + 15 ≤ 600
      → draw_character font fill
          (row * 100 + column)
          g
          frame
          (pixel (top row g + l) (column * 8 + c))
        ≡ shown font g (row * 100 + column) l c
  draw_character-inside row column l c g frame hcol hl hc ht =
      let p = row * 100 + column in
      ap (λ (f : Frame). f (pixel (top row g + l) (column * 8 + c)))
        (draw_character_lem row column g frame hcol)
      ∙ draw_lines-inside font (u8 (get_or g.charbuf p 0)) (get_foreground_color p g) (column * 8)
          (top row g) 15 0 c l (filled row column g frame) (omega arith) hc (omega arith)
          (omega arith)
      ∙ ap
          (λ (k : ℕ).
            if nz (bit_and (font (u8 (get_or g.charbuf p 0) + l * 128)) (1 <<< c))
            then get_foreground_color p g
            else k)
          (fills (record { x = column * 8; y = top row g; w = 8; h = 15 })
              (get_background_color p g) (column * 8 + c) (top row g + l) frame (omega arith)
              (omega arith)
            ∙ within)
    where
      within :
          (if leb (column * 8) (column * 8 + c)
              && ltb (column * 8 + c) (column * 8 + 8)
              && leb (top row g) (top row g + l)
              && ltb (top row g + l) (top row g + 15)
            then get_background_color (row * 100 + column) g
            else frame (pixel (top row g + l) (column * 8 + c)))
          ≡ get_background_color (row * 100 + column) g
      within = ground arith

  pub draw_character-outside :
      (row column u v : ℕ) (g : GraphicsState) (frame : Frame)
      → column < 100
      → u < 800
      → v < 600
      → (v < top row g) ⊎ ((top row g + 15 ≤ v) ⊎ ((u < column * 8) ⊎ (column * 8 + 8 ≤ u)))
      → draw_character font fill (row * 100 + column) g frame (pixel v u) ≡ frame (pixel v u)
  draw_character-outside row column u v g frame hcol hu hv h =
      let p = row * 100 + column in
      ap (λ (f : Frame). f (pixel v u)) (draw_character_lem row column g frame hcol)
      ∙ draw_lines-outside font (u8 (get_or g.charbuf p 0)) (get_foreground_color p g) (column * 8)
          (top row g) 15 0 u v (filled row column g frame) (omega arith) hu (omega arith)
      ∙ fills (record { x = column * 8; y = top row g; w = 8; h = 15 }) (get_background_color p g) u
          v frame hu hv
      ∙ apart (column * 8) (top row g) (get_background_color p g) (frame (pixel v u)) h
    where
      apart :
          (x y color kept : ℕ)
          → (v < y) ⊎ ((y + 15 ≤ v) ⊎ ((u < x) ⊎ (x + 8 ≤ u)))
          → (if leb x u && ltb u (x + 8) && leb y v && ltb v (y + 15) then color else kept) ≡ kept
      apart x y color kept h = ground arith
