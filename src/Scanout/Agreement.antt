-- ===== src/Scanout/Agreement.antt =====
-- The firmware shows what the emulator draws (pico_graphics/pico_graphics.cpp, emulator/graphics.cc).
use hd6301_thing.Common.{
  ℕ, zero, suc, ◌+◌, ◌*◌, ◌/◌, ◌%◌, ◌<◌, ◌≡◌, refl, ap, ◌∙◌, arith, List, [], ◌∷◌, ◌==◌, ==_iff,
  ◌≢◌, true, false, Bool-cases, inl, inr, if◌then◌else◌,
}
use hd6301_thing.Graphics.{GraphicsState}
use hd6301_thing.Scanout.{EncodeCall, Scan, scan_start, encode_plane, core1_scanline_callback}
use hd6301_thing.Screen.Frame.{row_at}

planes :
    (row line : ℕ)
    → line < 15
    → ◌≡◌ {A = List EncodeCall}
        (encode_plane (row * 15 + line) 0
          ∷ encode_plane (row * 15 + line) 1
          ∷ encode_plane (row * 15 + line) 2
          ∷ [])
        (record {
          charbuf_offset = row * 100;
          colorbuf_offset = row * 13;
          plane = 0;
          font_offset = line * 128;
        }
          ∷ record {
            charbuf_offset = row * 100;
            colorbuf_offset = row * 13 + 520;
            plane = 1;
            font_offset = line * 128;
          }
          ∷ record {
            charbuf_offset = row * 100;
            colorbuf_offset = row * 13 + 1040;
            plane = 2;
            font_offset = line * 128;
          }
          ∷ [])
unfolding encode_plane
planes row line h = ground arith

module _ (states : ℕ → GraphicsState) where
  -- The scan after `n` lines, where line `i` is encoded while the display is in state `states i`.
  abbrev pub scan_after : ℕ → Scan
  scan_after zero = scan_start
  scan_after (suc n) = (core1_scanline_callback (states n) (scan_after n)).1

  -- The lines encoded since the frame began.
  abbrev pub frame_of : ℕ → ℕ
  frame_of n = n / 600 * 600

  screen_y_lem : (n : ℕ) → (scan_after n).screen_y ≡ n % 600
  unfolding core1_scanline_callback
  screen_y_lem zero = refl
  screen_y_lem (suc n) = omega (arith, screen_y_lem n)

  abbrev roll_of : ℕ → ℕ
  roll_of n = (states (frame_of n)).roll * 15

  -- The roll that line `n` is encoded with.
  abbrev used : ℕ → ℕ
  used n = if (scan_after n).screen_y == 0 then (states n).roll * 15 else (scan_after n).roll_y

  used-of_kept : (n : ℕ) → (n % 600 ≢ 0 → (scan_after n).roll_y ≡ roll_of n) → used n ≡ roll_of n
  used-of_kept n kept = elim (Bool-cases (n % 600 == 0)) [
    | inl e ↦ rw (screen_y_lem n, e) (ap (λ (k : ℕ). (states k).roll * 15) (start e))
    | inr e ↦ rw (screen_y_lem n, e) (kept (inside e))
  ]
    where
      start : (n % 600 == 0) ≡ true → n ≡ frame_of n
      start e = omega (arith, (==_iff (n % 600) 0).0 e)

      inside : (n % 600 == 0) ≡ false → n % 600 ≢ 0
      inside e f = ground arith

  roll_y_lem : (n : ℕ) → n % 600 ≢ 0 → (scan_after n).roll_y ≡ roll_of n
  unfolding core1_scanline_callback
  roll_y_lem zero h = absurd (h refl)
  roll_y_lem (suc n) h =
      used-of_kept n (roll_y_lem n) ∙ ap (λ (k : ℕ). (states k).roll * 15) same_frame
    where
      same_frame : frame_of n ≡ frame_of (suc n)
      same_frame = omega arith

  logical_y_lem :
      (n : ℕ)
      → (states (frame_of n)).roll < 40
      → ((scan_after n).screen_y + used n + 600) % 600
        ≡ row_at (n % 600) (states (frame_of n)) * 15 + n % 600 % 15
  logical_y_lem n h = omega (arith, screen_y_lem n, used-of_kept n (roll_y_lem n))

  -- Line `n` of all lines, which is line n % 600 of a frame, is encoded from the row of characters,
  -- with its colours in each plane, and from the line of the font, that the emulator draws at that
  -- line of its frame, for the display as it was when the frame began.
  pub core1_scanline_callback_lem :
      (n : ℕ)
      → (states (frame_of n)).roll < 40
      → let row = row_at (n % 600) (states (frame_of n)) in
        (core1_scanline_callback (states n) (scan_after n)).0
        ≡ record {
          charbuf_offset = row * 100;
          colorbuf_offset = row * 13;
          plane = 0;
          font_offset = n % 600 % 15 * 128;
        }
          ∷ record {
            charbuf_offset = row * 100;
            colorbuf_offset = row * 13 + 520;
            plane = 1;
            font_offset = n % 600 % 15 * 128;
          }
          ∷ record {
            charbuf_offset = row * 100;
            colorbuf_offset = row * 13 + 1040;
            plane = 2;
            font_offset = n % 600 % 15 * 128;
          }
          ∷ []
  unfolding core1_scanline_callback
  core1_scanline_callback_lem n h =
      ap (λ (y : ℕ). encode_plane y 0 ∷ encode_plane y 1 ∷ encode_plane y 2 ∷ [])
        (logical_y_lem n h)
      ∙ planes (row_at (n % 600) (states (frame_of n))) (n % 600 % 15) (omega arith)
