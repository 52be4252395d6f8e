-- ===== src/Screen/Frame.antt =====
-- The whole frame after it was drawn (emulator/graphics.cc).
use hd6301_thing.Common.{
  ℕ, zero, suc, ◌+◌, ◌-◌, ◌*◌, ◌/◌, ◌%◌, ◌≤◌, ◌<◌, ◌≡◌, ◌≢◌, refl, ap, ◌∙◌, subst, arith, true,
  false, ◌==◌, Bool-cases, ==_iff, inl, inr, ◌⊎◌,
}
use hd6301_thing.Graphics.{GraphicsState}
use hd6301_thing.Screen.{Frame, Rect, draw_character, render_columns, render_rows, render_console}
use hd6301_thing.Screen.Pixels.{
  pixel, top, shown, Fills, draw_character-inside, draw_character-outside,
}

-- The row of characters that is shown at a line of the frame.
abbrev pub row_at : ℕ → GraphicsState → ℕ
row_at v g = (v / 15 + g.roll) % 40

top-row_at : (v : ℕ) (g : GraphicsState) → v < 600 → g.roll < 40 → top (row_at v g) g ≡ v / 15 * 15
top-row_at v g hv hr = omega arith

other_row :
    (i v : ℕ) (g : GraphicsState)
    → v < 600
    → g.roll < 40
    → i < 40
    → i ≢ row_at v g
    → (v < top i g) ⊎ (top i g + 15 ≤ v)
other_row i v g hv hr hi ne = apart in_lines not_here refl
  where
    in_lines : (i * 15 + 600 - g.roll * 15) % 600 ≡ (i + 40 - g.roll) % 40 * 15
    in_lines = omega arith

    not_here : (i + 40 - g.roll) % 40 ≢ v / 15
    not_here e = ne (omega arith)

    apart : {t q : ℕ} → top i g ≡ t * 15 → t ≢ q → q ≡ v / 15 → (v < top i g) ⊎ (top i g + 15 ≤ v)
    apart e f h = ground arith

module _ (font : ℕ → ℕ) (fill : Rect → ℕ → Frame → Frame) (fills : Fills fill) where
  render_columns-outside :
      (left i j u v : ℕ) (g : GraphicsState) (frame : Frame)
      → j + left ≤ 100
      → u < 800
      → v < 600
      → (v < top i g) ⊎ ((top i g + 15 ≤ v) ⊎ ((u < j * 8) ⊎ ((j + left) * 8 ≤ u)))
      → render_columns font fill left i j g frame (pixel v u) ≡ frame (pixel v u)
  unfolding render_columns
  render_columns-outside zero i j u v g frame hj hu hv h = refl
  render_columns-outside (suc left) i j u v g frame hj hu hv h =
      render_columns-outside left i (j + 1) u v g (draw_character font fill (i * 100 + j) g frame)
        (omega arith) hu hv (omega arith)
      ∙ draw_character-outside font fill fills i j u v g frame (omega arith) hu hv (omega arith)

  render_columns-inside :
      (left i j column l c : ℕ) (g : GraphicsState) (frame : Frame)
      → j + left ≤ 100
      → j ≤ column
      → column < j + left
      → l < 15
      → c < 8
      → top i g + 15 ≤ 600
      → render_columns font fill left i j g frame (pixel (top i g + l) (column * 8 + c))
        ≡ shown font g (i * 100 + column) l c
  unfolding render_columns
  render_columns-inside zero i j column l c g frame hj h0 h1 hl hc ht = absurd (omega arith)
  render_columns-inside (suc left) i j column l c g frame hj h0 h1 hl hc ht =
      let drawn = draw_character font fill (i * 100 + j) g frame in
      elim (Bool-cases (column == j)) [
        | inl e ↦
            render_columns-outside left i (j + 1) (column * 8 + c) (top i g + l) g drawn
              (omega arith) (omega arith) (omega arith) (inr (inr (inl (omega (arith, same e)))))
            ∙ subst
                (λ (k : ℕ).
                  draw_character font fill (i * 100 + k) g frame
                    (pixel (top i g + l) (column * 8 + c))
                  ≡ shown font g (i * 100 + column) l c)
                (same e)
                (draw_character-inside font fill fills i column l c g frame (omega arith) hl hc ht)
        | inr e ↦
            render_columns-inside left i (j + 1) column l c g drawn (omega arith) (later e)
              (omega arith) hl hc ht
      ]
    where
      same : (column == j) ≡ true → column ≡ j
      same e = (==_iff column j).0 e

      later : (column == j) ≡ false → j + 1 ≤ column
      later e = ground arith

  render_rows-outside :
      (left i u v : ℕ) (g : GraphicsState) (frame : Frame)
      → i + left ≤ 40
      → u < 800
      → v < 600
      → g.roll < 40
      → row_at v g < i
      → render_rows font fill left i g frame (pixel v u) ≡ frame (pixel v u)
  unfolding render_rows
  render_rows-outside zero i u v g frame hi hu hv hr h = refl
  render_rows-outside (suc left) i u v g frame hi hu hv hr h =
      let drawn = render_columns font fill 100 i 0 g frame in
      let apart = other_row i v g hv hr (omega arith) (λ e. absurd (omega arith)) in
      render_rows-outside left (i + 1) u v g drawn (omega arith) hu hv hr (omega arith)
      ∙ render_columns-outside 100 i 0 u v g frame (omega arith) hu hv (omega arith)

  -- A pixel at a line and a column of a character.
  render_rows-inside :
      (left i row column l c : ℕ) (g : GraphicsState) (frame : Frame)
      → i + left ≤ 40
      → i ≤ row
      → row < i + left
      → column < 100
      → l < 15
      → c < 8
      → g.roll < 40
      → render_rows font fill left i g frame (pixel (top row g + l) (column * 8 + c))
        ≡ shown font g (row * 100 + column) l c
  unfolding render_rows
  render_rows-inside zero i row column l c g frame hi h0 h1 hcol hl hc hr = absurd (omega arith)
  render_rows-inside (suc left) i row column l c g frame hi h0 h1 hcol hl hc hr =
      let drawn = render_columns font fill 100 i 0 g frame in
      elim (Bool-cases (row == i)) [
        | inl e ↦
            render_rows-outside left (i + 1) (column * 8 + c) (top row g + l) g drawn (omega arith)
              (omega arith) (omega arith) hr (omega (arith, same e))
            ∙ subst
                (λ (k : ℕ).
                  render_columns font fill 100 k 0 g frame (pixel (top row g + l) (column * 8 + c))
                  ≡ shown font g (row * 100 + column) l c)
                (same e)
                (render_columns-inside 100 row 0 column l c g frame (omega arith) (omega arith)
                  (omega arith) hl hc (omega arith))
        | inr e ↦
            render_rows-inside left (i + 1) row column l c g drawn (omega arith) (later e)
              (omega arith) hcol hl hc hr
      ]
    where
      same : (row == i) ≡ true → row ≡ i
      same e = (==_iff row i).0 e

      later : (row == i) ≡ false → i + 1 ≤ row
      later e = ground arith

  -- Whatever was in the frame, a pixel at line `v` and column `u` of it shows, after render_console,
  -- column u % 8 of line v % 15 of the character in column u / 8 of a row: the row that as many
  -- rows below line `v` as the display is rolled up, round its end. It has the foreground colour of that
  -- character where the font has a bit set, and its background colour elsewhere.
  pub render_console-shown :
      (u v : ℕ) (g : GraphicsState) (frame : Frame)
      → u < 800
      → v < 600
      → g.roll < 40
      → render_console font fill g frame (pixel v u)
        ≡ shown font g (row_at v g * 100 + u / 8) (v % 15) (u % 8)
  unfolding render_console
  render_console-shown u v g frame hu hv hr =
      ap (λ (k : ℕ). render_rows font fill 40 0 g frame k) place
      ∙ render_rows-inside 40 0 (row_at v g) (u / 8) (v % 15) (u % 8) g frame (omega arith)
          (omega arith) (omega arith) (omega arith) (omega arith) (omega arith) hr
    where
      place : pixel v u ≡ pixel (top (row_at v g) g + v % 15) (u / 8 * 8 + u % 8)
      place = omega (arith, top-row_at v g hv hr)
