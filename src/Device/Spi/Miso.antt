-- ===== src/Device/Spi/Miso.antt =====
-- What a reader of the MISO pin finds after a clock cycle (emulator/spi.cc, emulator/ioport.cc).
use hd6301_thing.Common.{
  ℕ, ◌<◌, ◌≡◌, refl, sym, ap, ◌∙◌, subst, arith, Bool, true, false, nz, bit_and, bit_or, not8, ◌==◌,
  if◌then◌else◌, u8, ◌<<<◌, ltb, holds_below, holds_below→at, ◌&&◌, bit_and_zero_left,
}
use hd6301_thing.Part.{Part}
use hd6301_thing.Device.Port.{IoPort, read_input_register, provide_inputs}
use hd6301_thing.Device.Spi.{Spi, provide, answer}
use hd6301_thing.Device.Spi.Bits.{shifted_out}
use hd6301_thing.Device.Spi.Exchange.{
  cycle, cycle_lem, IsSampled, after, rising_edge-wait, rising_edge-byte, present,
}

-- The pins with MISO at bit 0 set to `b`.
abbrev pins : Bool → ℕ → ℕ
pins b n = bit_or (bit_and n (not8 1)) (if b then 1 else 0)

abbrev pins_hold : ℕ → Bool
pins_hold n =
    (bit_and (bit_or (pins true n) 0) 1 == 1)
    && (bit_and (bit_or (pins false n) 0) 1 == 0)
    && ltb (pins true n) 256
    && ltb (pins false n) 256

every_pins_hold : holds_below pins_hold 256 ≡ true
unfolding holds_below
every_pins_hold = refl

pins_lem :
    (b : Bool) (n : ℕ)
    → n < 256
    → (bit_and (bit_or (pins b n) 0) 1 ≡ (if b then 1 else 0)) × (pins b n < 256)
pins_lem true n h = let held = holds_below→at pins_hold 256 n h every_pins_hold in ground arith
pins_lem false n h = let held = holds_below→at pins_hold 256 n h every_pins_hold in ground arith

module _ {V B : Type 0} (miso : Part V (IoPort B × B)) where
  -- The MISO port is an input of eight pins.
  abbrev pub IsInput : V → Type 0
  IsInput v = ((miso.view v).0.output_register ≡ 0) × ((miso.view v).0.input_register < 256)

  abbrev pub pin : V → ℕ
  pin v = bit_and (read_input_register (miso.view v).0) 1

  provide_lem :
      (b : Bool) (v : V)
      → IsInput v
      → (pin (provide miso (if b then 1 else 0) 1 v) ≡ (if b then 1 else 0))
        × IsInput (provide miso (if b then 1 else 0) 1 v)
  unfolding provide provide_inputs read_input_register
  provide_lem b v (output, input) =
      let port = (miso.view v).0 in
      let e = miso.view-put (provide_inputs (if b then 1 else 0) 1 (miso.view v)) v in
      let held = pins_lem b port.input_register input in
      subst
        (λ (t : IoPort B × B).
          (bit_and (read_input_register t.0) 1 ≡ (if b then 1 else 0))
          × ((t.0.output_register ≡ 0) × (t.0.input_register < 256)))
        (sym e) (rw (output, bit_and_zero_left port.data_direction) held.0, (output, held.1))

  -- MISO is the first pin of its port, and so is the clock.
  abbrev pub IsFirst : Spi V → Type 0
  IsFirst s = (s.miso_mask ≡ 1) × (s.clk_mask ≡ 1)

  pub shift_out :
      (s : Spi V) (v : V)
      → IsFirst s
      → IsInput v
      → (pin (present miso s.miso_mask (shifted_out 1 s.sub_data_out) v)
          ≡ (if nz (bit_and s.sub_data_out 0x80) then 1 else 0))
        × IsInput (present miso s.miso_mask (shifted_out 1 s.sub_data_out) v)
  shift_out s v first input = rw (first.0) (provide_lem (nz (bit_and s.sub_data_out 0x80)) v input)

  -- A cycle that does not end a byte.
  pub cycle_wait :
      (b : Bool) (s : Spi V) (v : V)
      → IsSampled miso s.bit_count s
      → s.bit_count < 7
      → cycle miso b (s, v)
        ≡ (after miso b s, present miso s.miso_mask (shifted_out 1 s.sub_data_out) v)
  cycle_wait b s v sampled early =
      let s0 = record s {
        previous_clock = s.clk_mask;
        sub_data_out = u8 (s.sub_data_out <<< 1);
        mosi_bit = if b then 1 else 0;
      } in
      cycle_lem miso b s v s.bit_count sampled
      ∙ rising_edge-wait miso s0 (present miso s.miso_mask (shifted_out 1 s.sub_data_out) v) early

  -- The cycle that ends a byte.
  pub cycle_byte :
      (b : Bool) (s : Spi V) (v : V)
      → IsSampled miso s.bit_count s
      → s.bit_count ≡ 7
      → (cycle miso b (s, v)).1
        ≡ (answer s.byte_received_callback
            (u8 (bit_or (s.sub_data_in <<< 1) (if b then 1 else 0)))
            (present miso s.miso_mask (shifted_out 1 s.sub_data_out) v)).1
  cycle_byte b s v sampled last =
      let s0 = record s {
        previous_clock = s.clk_mask;
        sub_data_out = u8 (s.sub_data_out <<< 1);
        mosi_bit = if b then 1 else 0;
      } in
      ap (λ (t : Spi V × V). t.1)
        (cycle_lem miso b s v s.bit_count sampled
          ∙ rising_edge-byte miso s0 (present miso s.miso_mask (shifted_out 1 s.sub_data_out) v)
              last)
