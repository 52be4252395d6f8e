-- ===== src/Graphics/ReadBack.antt =====
-- A colour that is set is read back (graphics_state/graphics_state.cc).
use hd6301_thing.Common.{
  ℕ, zero, suc, ◌+◌, ◌*◌, ◌/◌, ◌%◌, ◌<◌, ◌≡◌, ◌≢◌, refl, sym, ap, ◌∙◌, arith, subst, true, false,
  ◌==◌, ==_iff, leb, bit_or, List, length, get_or, set, ◌<<<◌, ◌>>>◌, u8, holds_below,
  holds_below→at, get_or-set_self, get_or-set_ne, length-set,
}
use hd6301_thing.Graphics.{GraphicsState, char_buf_size, color_plane_size_words}
use hd6301_thing.Graphics.ColorBits.{written, read, read-written, read-written_next}
use hd6301_thing.Graphics.Colors.{
  padded, set_planes, set_color_bits, set_color, set_fg_color, set_bg_color, get_planes,
  get_background_color, get_foreground_color,
}

-- The bits of the three planes give the colour.
planes_table :
    holds_below
      (λ c.
        bit_or
          (u8 ((c % 4) <<< 0))
          (bit_or (u8 (((c >>> 2) % 4) <<< 2)) (bit_or (u8 ((((c >>> 2) >>> 2) % 4) <<< 4)) 0))
        == c)
      64
    ≡ true
unfolding holds_below
planes_table = refl

-- The three words of a character after its colour is set.
set_planes_lem :
    (wi k c : ℕ) (ws : List ℕ)
    → wi + 1040 < length ws
    → let s = set_planes 3 wi k c ws in
      (get_or s (wi + 0) 0 ≡ written (get_or ws (wi + 0) 0) c k)
      × (get_or s (wi + 520) 0 ≡ written (get_or ws (wi + 520) 0) (c >>> 2) k)
      × (get_or s (wi + 1040) 0 ≡ written (get_or ws (wi + 1040) 0) ((c >>> 2) >>> 2) k)
unfolding set_planes
set_planes_lem wi k c ws hw =
    let at1 = wi + color_plane_size_words in
    let at2 = at1 + color_plane_size_words in
    let v0 = written (get_or ws wi 0) c k in
    let s1 = set ws wi v0 in
    let v1 = written (get_or s1 at1 0) (c >>> 2) k in
    let s2 = set s1 at1 v1 in
    let v2 = written (get_or s2 at2 0) ((c >>> 2) >>> 2) k in
    let s3 = set s2 at2 v2 in
    (
      ap (λ (n : ℕ). get_or s3 n 0) (plus_zero wi)
          ∙ get_or-set_ne s2 at2 wi v2 0 (farther wi)
          ∙ get_or-set_ne s1 at1 wi v1 0 (far wi)
          ∙ get_or-set_self ws wi v0 0 (omega arith)
          ∙ ap (λ (n : ℕ). written (get_or ws n 0) c k) (sym (plus_zero wi)),
      get_or-set_ne s2 at2 at1 v2 0 (far at1)
          ∙ get_or-set_self s1 at1 v1 0 (omega (arith, length-set ws wi v0))
          ∙ ap (λ (n : ℕ). written n (c >>> 2) k) (get_or-set_ne ws wi at1 v0 0 (near wi)),
      ap (λ (n : ℕ). get_or s3 n 0) (two_planes wi)
          ∙ get_or-set_self s2 at2 v2 0 (omega (arith, length-set s1 at1 v1, length-set ws wi v0))
          ∙ ap (λ (n : ℕ). written n ((c >>> 2) >>> 2) k)
              (get_or-set_ne s1 at1 at2 v1 0 (near at1)
                ∙ get_or-set_ne ws wi at2 v0 0 (nearer wi)
                ∙ ap (λ (n : ℕ). get_or ws n 0) (sym (two_planes wi))),
    )
  where
    plus_zero : (n : ℕ) → n + 0 ≡ n
    plus_zero n = omega arith

    two_planes : (n : ℕ) → n + 1040 ≡ n + 520 + 520
    two_planes n = omega arith

    far : (n : ℕ) → n + 520 ≢ n
    far n = omega arith

    farther : (n : ℕ) → n + 520 + 520 ≢ n
    farther n = omega arith

    near : (n : ℕ) → n ≢ n + 520
    near n = omega arith

    nearer : (n : ℕ) → n ≢ n + 520 + 520
    nearer n = omega arith

-- The bits that are read at the place that was written, and at the one before it.
get_planes-set_planes :
    (wi j c : ℕ) (ws : List ℕ)
    → j < 16
    → c < 64
    → wi + 1040 < length ws
    → get_planes 3 0 wi (2 * j) (set_planes 3 wi (2 * j) c ws) ≡ c
unfolding get_planes
get_planes-set_planes wi j c ws hj hc hw =
    let (e0, e1, e2) = set_planes_lem wi (2 * j) c ws hw in
    let r0 = ap (read (2 * j)) e0 ∙ read-written j _ c hj in
    let r1 = ap (read (2 * j)) e1 ∙ read-written j _ (c >>> 2) hj in
    let r2 = ap (read (2 * j)) e2 ∙ read-written j _ ((c >>> 2) >>> 2) hj in
    (λ i. bit_or (u8 (r0 i <<< 0)) (bit_or (u8 (r1 i <<< 2)) (bit_or (u8 (r2 i <<< 4)) 0)))
    ∙ (==_iff _ _).0 (holds_below→at _ 64 c hc planes_table)

get_planes-set_planes_next :
    (wi j c : ℕ) (ws : List ℕ)
    → j < 15
    → wi + 1040 < length ws
    → get_planes 3 0 wi (2 * j) (set_planes 3 wi (2 * (j + 1)) c ws) ≡ get_planes 3 0 wi (2 * j) ws
unfolding get_planes
get_planes-set_planes_next wi j c ws hj hw =
    let (e0, e1, e2) = set_planes_lem wi (2 * (j + 1)) c ws hw in
    let r0 = ap (read (2 * j)) e0 ∙ read-written_next j _ c hj in
    let r1 = ap (read (2 * j)) e1 ∙ read-written_next j _ (c >>> 2) hj in
    let r2 = ap (read (2 * j)) e2 ∙ read-written_next j _ ((c >>> 2) >>> 2) hj in
    λ i. bit_or (u8 (r0 i <<< 0)) (bit_or (u8 (r1 i <<< 2)) (bit_or (u8 (r2 i <<< 4)) 0))

-- The place of a character in the buffer of colours is inside its plane.
padded_lem :
    (position h : ℕ)
    → position < char_buf_size
    → h < 2
    → (padded position % 8 * 2 + h < 16) × (padded position / 8 + 1040 < 1560)
unfolding padded
padded_lem position h hp hh = omega arith

length-set_planes :
    (planes wi i c : ℕ) (ws : List ℕ) → length (set_planes planes wi i c ws) ≡ length ws
unfolding set_planes
length-set_planes zero wi i c ws = refl
length-set_planes (suc planes) wi i c ws =
    length-set_planes planes (wi + color_plane_size_words) i (c >>> 2) _ ∙ length-set ws wi _

-- The colours of six bits that are set for a character are read back as its foreground and its
-- background, for a position on the display and a buffer of colours of three planes.
pub get_color-set_color :
    (position fg bg : ℕ) (g : GraphicsState)
    → position < char_buf_size
    → fg < 64
    → bg < 64
    → length g.colorbuf ≡ 1560
    → (get_foreground_color position (set_color position fg bg g) ≡ fg)
      × (get_background_color position (set_color position fg bg g) ≡ bg)
unfolding get_foreground_color get_background_color set_color set_fg_color set_bg_color
    set_color_bits
get_color-set_color position fg bg g hp hf hb hl =
    let wi = padded position / 8 in
    let place = padded position % 8 in
    let (low, word) = padded_lem position 0 hp (omega arith) in
    let (high, _) = padded_lem position 1 hp (omega arith) in
    let inside = subst (λ (n : ℕ). wi + 1040 < n) (sym hl) word in
    let ws = set_planes 3 wi (2 * (place * 2 + 0)) fg g.colorbuf in
    let inside' =
      subst (λ (n : ℕ). wi + 1040 < n)
        (sym (length-set_planes 3 wi (2 * (place * 2 + 0)) fg g.colorbuf)) inside in
    rw (within position hp) (
      (λ i.
            get_planes 3 0 wi (even0 place i)
              (set_planes 3 wi (even2 place i) bg (set_planes 3 wi (even1 place i) fg g.colorbuf)))
          ∙ ap (λ (n : ℕ). get_planes 3 0 wi (2 * (place * 2 + 0)) (set_planes 3 wi (2 * n) bg ws))
              (following place)
          ∙ get_planes-set_planes_next wi (place * 2 + 0) bg ws (omega arith) inside'
          ∙ get_planes-set_planes wi (place * 2 + 0) fg g.colorbuf low hf inside,
      (λ i.
            get_planes 3 0 wi (even2 place i)
              (set_planes 3 wi (even2 place i) bg (set_planes 3 wi (even1 place i) fg g.colorbuf)))
          ∙ get_planes-set_planes wi (place * 2 + 1) bg ws high hb inside',
    )
  where
    within : (n : ℕ) → n < 4000 → leb 4000 n ≡ false
    within n h = ground arith

    even0 : (n : ℕ) → n * 4 ≡ 2 * (n * 2 + 0)
    even0 n = omega arith

    even1 : (n : ℕ) → n * 4 + 0 ≡ 2 * (n * 2 + 0)
    even1 n = omega arith

    even2 : (n : ℕ) → n * 4 + 2 ≡ 2 * (n * 2 + 1)
    even2 n = omega arith

    following : (n : ℕ) → n * 2 + 1 ≡ n * 2 + 0 + 1
    following n = omega arith
