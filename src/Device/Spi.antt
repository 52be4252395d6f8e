-- ===== src/Device/Spi.antt =====
-- emulator/spi.h and .cc: the side of an SPI bus that is not the processor. The callbacks act on a
-- world W, which holds the port of the MISO pin, and the world V of what is wired to that.
pub mod Bits
pub mod Exchange
pub mod Miso
use hd6301_thing.Common.{
  ℕ, ◌+◌, ◌^◌, Bool, true, false, ◌==◌, ltb, nz, bit_and, bit_or, not, if◌then◌else◌, u8, ◌<<<◌,
  Option, none, some,
}
use hd6301_thing.Part.{Part}
use hd6301_thing.Device.Port.{IoPort, provide_inputs}

-- The masks, the callbacks and the members of `SPIState`.
pub record Spi (W : Type 0) : Type 0 where
  pub cs_mask : ℕ
  pub clk_mask : ℕ
  pub mosi_mask : ℕ
  pub miso_mask : ℕ
  pub byte_received_callback : Option (ℕ → W → ℕ × W)
  pub chip_select_callback : Option (Bool → W → ℕ × W)
  pub sub_data_out : ℕ
  pub sub_data_in : ℕ
  pub bit_count : ℕ
  pub previous_clock : ℕ
  pub previous_cs : ℕ
  pub miso_port_data : ℕ
  pub mosi_bit : ℕ

module _ {W : Type 0} where
  -- The bus at construction, with the numbers of its pins.
  unfoldable pub spi_at : ℕ → ℕ → ℕ → ℕ → Spi W
  spi_at cs_pin clk_pin mosi_pin miso_pin = record {
    cs_mask = u8 (1 <<< cs_pin);
    clk_mask = u8 (1 <<< clk_pin);
    mosi_mask = u8 (1 <<< mosi_pin);
    miso_mask = u8 (1 <<< miso_pin);
    byte_received_callback = none;
    chip_select_callback = none;
    sub_data_out = 0xff;
    sub_data_in = 0;
    bit_count = 0;
    previous_clock = 0;
    previous_cs = u8 (1 <<< cs_pin);
    miso_port_data = 0;
    mosi_bit = 0;
  }

  unfoldable pub set_byte_received_callback : (ℕ → W → ℕ × W) → Spi W → Spi W
  set_byte_received_callback f s = record s { byte_received_callback = some f }

  unfoldable pub set_chip_select_callback : (Bool → W → ℕ × W) → Spi W → Spi W
  set_chip_select_callback f s = record s { chip_select_callback = some f }

  -- A callback that is not set answers 0xff.
  unfoldable pub answer : {A : Type 0} → Option (A → W → ℕ × W) → A → W → ℕ × W
  answer none a w = (0xff, w)
  answer (some f) a w = f a w

  unfoldable pub sub_data_in : ℕ → Spi W → Spi W
  sub_data_in value s = record s { mosi_bit = if nz (bit_and s.mosi_mask value) then 1 else 0 }

  module _ {V : Type 0} (miso : Part W (IoPort V × V)) where
    -- `provide_inputs` of the MISO port.
    unfoldable pub provide : ℕ → ℕ → W → W
    unfolding provide_inputs
    provide value mask w = miso.put (provide_inputs value mask (miso.view w)) w

    -- Sampling: the rising edge.
    unfoldable pub rising_edge : Spi W × W → Spi W × W
    unfolding answer
    rising_edge (s, w) =
        let s1 = record s {
          sub_data_in = u8 (bit_or (s.sub_data_in <<< 1) s.mosi_bit);
          bit_count = u8 (s.bit_count + 1);
        } in
        if s1.bit_count == 8
        then (let (out, w1) = answer s1.byte_received_callback s1.sub_data_in w in
            (record s1 { sub_data_out = out; bit_count = 0 }, w1))
        else (s1, w)

    -- Shifting out: the falling edge.
    unfoldable pub falling_edge : Spi W × W → Spi W × W
    unfolding provide
    falling_edge (s, w) = (
      record s { sub_data_out = u8 (s.sub_data_out <<< 1) },
      if nz (bit_and s.sub_data_out 0x80)
          then provide s.miso_mask s.miso_mask w
          else provide 0 s.miso_mask w,
    )

    unfoldable pub clk_data_in : ℕ → Spi W × W → Spi W × W
    unfolding rising_edge falling_edge
    clk_data_in value (s, w) =
        let clock = bit_and s.clk_mask value in
        let s1 = record s { previous_clock = clock } in
        if clock == s.previous_clock
        then (s, w)
        else (if ltb 0 clock then rising_edge (s1, w) else falling_edge (s1, w))

    unfoldable pub cs_data_in : ℕ → Spi W × W → Spi W × W
    unfolding answer provide
    cs_data_in value (s, w) =
        let select = bit_and s.cs_mask value in
        if select == s.previous_cs
        then (s, w)
        else (let (out, w1) = answer s.chip_select_callback (select == 0) w in
            (
              record s { previous_cs = select; sub_data_out = out; bit_count = 0 },
              provide (if nz (bit_and out 0x80) then s.miso_mask else 0) 0xff w1,
            ))
