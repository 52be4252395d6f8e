-- ===== src/Device/Glue/Clock.antt =====
-- A clock cycle of the glue with the SPI bus at its clock port (emulator/w65c22_to_spi_glue.cc,
-- emulator/spi.cc).
use hd6301_thing.Common.{
  ℕ, ◌+◌, ◌<◌, ◌≡◌, refl, sym, ap, ◌∙◌, arith, Bool, true, false, bit, bit_and, bit_or, ◌==◌,
  if◌then◌else◌, u8, ◌<<<◌, List, [], ◌∷◌,
}
use hd6301_thing.Part.{Part}
use hd6301_thing.Device.Port.{IoPort, notify, read_input_register, write_output_register}
use hd6301_thing.Device.Spi.{Spi, sub_data_in, clk_data_in}
use hd6301_thing.Device.Spi.Exchange.{cycle}
use hd6301_thing.Device.Glue.{Glue, Ports, clk_bit_in, miso_bit_in, clock_tick, present}

-- The bus behind the clock port of the glue: the SPI bus and the world that holds the MISO port.
module _ {W V B C D : Type 0} (p : Ports W (Spi V × V) B C D) (miso : Part V (IoPort B × B)) where
  abbrev pub bus : W → Spi V × V
  bus w = (p.clk_out.view w).1

  abbrev pub set_bus : Spi V × V → W → W
  set_bus s w = p.clk_out.put ((p.clk_out.view w).0, s) w

  -- The clock port drives the SPI bus alone, as an output.
  abbrev pub IsWired : W → Type 0
  IsWired w =
      ((p.clk_out.view w).0.output_change_callbacks ≡ clk_data_in miso ∷ [])
      × ((p.clk_out.view w).0.data_direction ≡ 1)

  abbrev pub clocked : ℕ → W → W
  clocked v w = p.clk_out.put (write_output_register v (p.clk_out.view w)) w

  pub clocked_lem :
      (v : ℕ) (w : W)
      → IsWired w
      → (bus (clocked v w) ≡ clk_data_in miso (bit_and v 1) (bus w)) × IsWired (clocked v w)
  unfolding write_output_register notify
  clocked_lem v w (callbacks, direction) =
      let e = p.clk_out.view-put (write_output_register v (p.clk_out.view w)) w in
      let port = (p.clk_out.view w).0 in
      (
        ap (λ (t : IoPort (Spi V × V) × (Spi V × V)). t.1) e
            ∙ ap (λ fs. notify fs (bit_and v port.data_direction) (bus w)) callbacks
            ∙ ap (λ (direction : ℕ). clk_data_in miso (bit_and v direction) (bus w)) direction,
        (
          ap (λ (t : IoPort (Spi V × V) × (Spi V × V)). t.0.output_change_callbacks) e ∙ callbacks,
          ap (λ (t : IoPort (Spi V × V) × (Spi V × V)). t.0.data_direction) e ∙ direction,
        ),
      )

  -- The processor writes the clock bit to the port of the adapter, and the glue passes it on at the
  -- next tick, which begins with that.
  abbrev pub clock : ℕ → Glue × W → Glue × W
  clock value (g, w) = clock_tick p (clk_bit_in value g, w)

  abbrev pub mosi_of : Bool → Spi V × V → Spi V × V
  mosi_of b (s, v) = (sub_data_in (if b then s.mosi_mask else 0) s, v)

  abbrev pub mosi_set : Bool → W → W
  mosi_set mosi w = set_bus (mosi_of mosi (bus w)) w

  -- The inverted clock falls, the processor sets MOSI, and the inverted clock rises.
  abbrev pub exchange_bit : Bool → Glue × W → Glue × W
  exchange_bit mosi s = let (g1, w1) = clock 1 s in clock 0 (g1, mosi_set mosi w1)

  abbrev pub exchange_bits : List Bool → Glue × W → Glue × W
  exchange_bits [] s = s
  exchange_bits (b ∷ bs) s = exchange_bits bs (exchange_bit b s)

  pub clock_falls :
      (g : Glue) (w : W)
      → g.clk_in_mask ≡ 1
      → clock 1 (g, w) ≡ (record g { clock_on_last_tick = false; prev_clock = 0 }, clocked 0 w)
  unfolding clock_tick clk_bit_in
  clock_falls g w mask = rw (mask) refl

  pub clock_rises :
      (g : Glue) (w : W)
      → g.clk_in_mask ≡ 1
      → clock 0 (g, w)
        ≡ miso_bit_in p
            (read_input_register (p.miso.view (clocked 1 w)).0)
            (record g { clock_on_last_tick = false; prev_clock = 1 }, clocked 1 w)
  unfolding clock_tick clk_bit_in
  clock_rises g w mask = rw (mask) refl

  -- The world when the glue samples MISO.
  abbrev pub raised : Bool → W → W
  raised mosi w = clocked 1 (mosi_set mosi (clocked 0 w))

  pub exchange_bit-raised :
      (b : Bool) (g : Glue) (w : W)
      → g.clk_in_mask ≡ 1
      → exchange_bit b (g, w)
        ≡ miso_bit_in p
            (read_input_register (p.miso.view (raised b w)).0)
            (record g { clock_on_last_tick = false; prev_clock = 1 }, raised b w)
  exchange_bit-raised b g w mask =
      ap (λ (t : Glue × W). clock 0 (t.0, mosi_set b t.1)) (clock_falls g w mask)
      ∙ clock_rises (record g { clock_on_last_tick = false; prev_clock = 0 })
          (mosi_set b (clocked 0 w)) mask

  pub set_bus_lem :
      (t : Spi V × V) (w : W) → IsWired w → (bus (set_bus t w) ≡ t) × IsWired (set_bus t w)
  set_bus_lem t w (callbacks, direction) =
      let e = p.clk_out.view-put ((p.clk_out.view w).0, t) w in
      (
        ap (λ (t : IoPort (Spi V × V) × (Spi V × V)). t.1) e,
        (
          ap (λ (t : IoPort (Spi V × V) × (Spi V × V)). t.0.output_change_callbacks) e ∙ callbacks,
          ap (λ (t : IoPort (Spi V × V) × (Spi V × V)). t.0.data_direction) e ∙ direction,
        ),
      )

  pub raised_lem :
      (b : Bool) (w : W)
      → IsWired w
      → (clk_data_in miso 0 (bus w)).0.clk_mask ≡ 1
      → (bus (raised b w) ≡ cycle miso b (bus w)) × IsWired (raised b w)
  raised_lem b w wired one =
      let low = clocked_lem 0 w wired in
      let set = set_bus_lem (mosi_of b (bus (clocked 0 w))) (clocked 0 w) low.1 in
      let high = clocked_lem 1 (mosi_set b (clocked 0 w)) set.1 in
      (
        high.0
            ∙ ap (clk_data_in miso 1) (set.0 ∙ ap (mosi_of b) low.0)
            ∙ ap (λ m. clk_data_in miso m (mosi_of b (clk_data_in miso 0 (bus w)))) (sym one),
        high.1,
      )

  pub miso_wait :
      (value : ℕ) (g : Glue) (w : W)
      → g.shift_count < 7
      → miso_bit_in p value (g, w) ≡ (
        record g {
          miso_shift_data = u8 (bit_or (g.miso_shift_data <<< 1) (bit (bit_and value 1 == 1)));
          shift_count = g.shift_count + 1;
        },
        w,
      )
  unfolding miso_bit_in
  miso_wait value g w h = rw (differs) refl
    where
      differs : (g.shift_count + 1 == 8) ≡ false
      differs = ground arith

  pub miso_byte :
      (value : ℕ) (g : Glue) (w : W)
      → g.shift_count ≡ 7
      → g.output_keyboard_data ≡ false
      → let shifted = u8 (bit_or (g.miso_shift_data <<< 1) (bit (bit_and value 1 == 1))) in
        miso_bit_in p value (g, w) ≡ (
          record g { miso_shift_data = shifted; shift_count = 0; sd_card_data = shifted },
          present p shifted w,
        )
  unfolding miso_bit_in
  miso_byte value g w h card = rw (h, card) refl

  -- The glue has the byte of the card and shows it to the adapter.
  abbrev pub IsShown : ℕ → Glue × W → Type 0
  IsShown value (g, w) =
      (g.sd_card_data ≡ value)
      × (g.shift_count ≡ 0)
      × ((p.parallel_out.view w).0.input_register ≡ value)

  pub sampled_bit :
      (c : Bool) (t u : IoPort B × B)
      → t ≡ u
      → bit_and (read_input_register u.0) 1 ≡ (if c then 1 else 0)
      → bit (bit_and (read_input_register t.0) 1 == 1) ≡ (if c then 1 else 0)
  sampled_bit c t u e h =
      ap (λ (t : IoPort B × B). bit (bit_and (read_input_register t.0) 1 == 1)) e
      ∙ ap (λ n. bit (n == 1)) h
      ∙ bits c
    where
      bits : (c : Bool) → bit ((if c then 1 else 0) == 1) ≡ (if c then 1 else 0)
      bits true = refl
      bits false = refl
