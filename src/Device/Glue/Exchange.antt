-- ===== src/Device/Glue/Exchange.antt =====
-- A byte each way between the adapter and the card, through the glue and the SPI bus
-- (emulator/w65c22_to_spi_glue.cc, emulator/spi.cc).
use hd6301_thing.Common.{
  ℕ, suc, ◌+◌, ◌/◌, ◌%◌, ◌^◌, ◌<◌, ◌≡◌, refl, sym, ap, ◌∙◌, subst, arith, Bool, false, nz, bit_and,
  bit_or, ◌==◌, if◌then◌else◌, u8, ◌<<<◌, List, [], ◌∷◌, length, Option,
}
use hd6301_thing.Part.{Part}
use hd6301_thing.Device.Port.{IoPort, read_input_register}
use hd6301_thing.Device.Spi.{Spi, answer, clk_data_in}
use hd6301_thing.Device.Spi
use hd6301_thing.Device.Spi.Bits.{
  to_bits, from_bits, shifted_out, shifted_out-byte, shift_in, whole_byte,
}
use hd6301_thing.Device.Spi.Exchange.{
  cycle, cycles, IsSampled, IsAnswered, cycles-to_bits, after, clk_low,
}
use hd6301_thing.Device.Spi.Miso.{IsInput, IsFirst, shift_out, cycle_wait, cycle_byte}
use hd6301_thing.Device.Glue.{Glue, Ports, present}
use hd6301_thing.Device.Glue.Shown.{present_lem}
use hd6301_thing.Device.Glue.Clock.{
  bus, IsWired, IsShown, raised, raised_lem, exchange_bit, exchange_bits, exchange_bit-raised,
  miso_wait, miso_byte, sampled_bit,
}

-- The MISO port of the glue is the one that the SPI bus sets, the port of the adapter is apart from
-- the clock port, and the card that answers a byte leaves the MISO port alone.
module _ {W V B C D : Type 0} (p : Ports W (Spi V × V) B C D) (miso : Part V (IoPort B × B))
    (card : Option (ℕ → V → ℕ × V))
    (same : (w : W) → p.miso.view w ≡ miso.view (p.clk_out.view w).1.1)
    (apart : (t : IoPort D × D) (w : W)
      → p.clk_out.view (p.parallel_out.put t w) ≡ p.clk_out.view w)
    (quiet : (value : ℕ) (v : V) → miso.view (answer card value v).1 ≡ miso.view v) where
  -- With `n` bits of a byte exchanged.
  abbrev pub IsExchanging : ℕ → Glue → Spi V → V → Type 0
  IsExchanging n g s v =
      (g.clk_in_mask ≡ 1)
      × (g.shift_count ≡ n)
      × (g.output_keyboard_data ≡ false)
      × IsSampled miso n s
      × IsFirst miso s
      × IsInput miso v
      × (s.byte_received_callback ≡ card)

  low_mask :
      (n : ℕ) (g : Glue) (t : Spi V × V) (s : Spi V) (v : V)
      → IsExchanging n g s v
      → t ≡ (s, v)
      → (clk_data_in miso 0 t).0.clk_mask ≡ 1
  low_mask n g t s v (mask, count, selected, sampled, first, input, callback) e =
      ap (λ (t : Spi V × V). (clk_data_in miso 0 t).0.clk_mask) e
      ∙ ap (λ (t : Spi V × V). t.0.clk_mask) (clk_low miso s v n sampled)
      ∙ first.1

  -- A bit before the last.
  exchange_bit-wait :
      (b : Bool) (n : ℕ) (g : Glue) (w : W) (s : Spi V) (v : V)
      → n < 7
      → IsExchanging n g s v
      → IsWired p miso w
      → bus p miso w ≡ (s, v)
      → let v1 = Spi.Exchange.present miso s.miso_mask (shifted_out 1 s.sub_data_out) v in
        let g1 = record g {
          clock_on_last_tick = false;
          prev_clock = 1;
          miso_shift_data = u8 (
              bit_or (g.miso_shift_data <<< 1) (if nz (bit_and s.sub_data_out 0x80) then 1 else 0));
          shift_count = g.shift_count + 1;
        } in
        (exchange_bit p miso b (g, w) ≡ (g1, raised p miso b w))
        × (bus p miso (raised p miso b w) ≡ (after miso b s, v1))
        × IsWired p miso (raised p miso b w)
  exchange_bit-wait b n g w s v early (mask, count, selected, sampled, first, input, callback) wired
        e =
      let w1 = raised p miso b w in
      let g1 = record g { clock_on_last_tick = false; prev_clock = 1 } in
      let up = raised_lem p miso b w wired (
        low_mask n g (bus p miso w) s v (mask, count, selected, sampled, first, input, callback)
          e) in
      let at =
        up.0
        ∙ ap (cycle miso b) e
        ∙ cycle_wait miso b s v (refl, sampled.1, sampled.2, sampled.3) (within sampled.0 early) in
      let value = read_input_register (p.miso.view w1).0 in
      (
        exchange_bit-raised p miso b g w mask
            ∙ miso_wait p miso value g1 w1 (within count early)
            ∙ ap
                (λ (d : ℕ). (
                  record g1 {
                    miso_shift_data = u8 (bit_or (g.miso_shift_data <<< 1) d);
                    shift_count = g.shift_count + 1;
                  },
                  w1,
                ))
                (sampled_bit p miso (nz (bit_and s.sub_data_out 0x80)) (p.miso.view w1) _
                  (same w1 ∙ ap (λ (t : Spi V × V). miso.view t.1) at)
                  (shift_out miso s v first input).0),
        at,
        up.1,
      )
    where
      within : {k n : ℕ} → k ≡ n → n < 7 → k < 7
      within e h = omega arith

  -- The last bit of a byte.
  exchange_bit-byte :
      (b : Bool) (g : Glue) (w : W) (s : Spi V) (v : V)
      → IsExchanging 7 g s v
      → IsWired p miso w
      → bus p miso w ≡ (s, v)
      → (bus p miso (exchange_bit p miso b (g, w)).1 ≡ cycle miso b (s, v))
        × IsShown p miso
            (u8 (
              bit_or (g.miso_shift_data <<< 1) (if nz (bit_and s.sub_data_out 0x80) then 1 else 0)))
            (exchange_bit p miso b (g, w))
  unfolding present
  exchange_bit-byte b g w s v (mask, count, selected, sampled, first, input, callback) wired e =
      let w1 = raised p miso b w in
      let g1 = record g { clock_on_last_tick = false; prev_clock = 1 } in
      let up = raised_lem p miso b w wired (
        low_mask 7 g (bus p miso w) s v (mask, count, selected, sampled, first, input, callback)
          e) in
      let at = up.0 ∙ ap (cycle miso b) e in
      let value = read_input_register (p.miso.view w1).0 in
      let v1 = Spi.Exchange.present miso s.miso_mask (shifted_out 1 s.sub_data_out) v in
      let received = u8 (bit_or (s.sub_data_in <<< 1) (if b then 1 else 0)) in
      let shown = λ (d : ℕ). u8 (bit_or (g.miso_shift_data <<< 1) d) in
      let path =
        exchange_bit-raised p miso b g w mask
        ∙ miso_byte p miso value g1 w1 count selected
        ∙ ap
            (λ (d : ℕ). (
              record g1 { miso_shift_data = shown d; shift_count = 0; sd_card_data = shown d },
              present p (shown d) w1,
            ))
            (sampled_bit p miso (nz (bit_and s.sub_data_out 0x80)) (p.miso.view w1) _
              (same w1
                ∙ ap (λ (t : Spi V × V). miso.view t.1) at
                ∙ ap miso.view
                    (cycle_byte miso b s v (refl, sampled.1, sampled.2, sampled.3) sampled.0)
                ∙ ap (λ f. miso.view (answer f received v1).1) callback
                ∙ quiet received v1)
              (shift_out miso s v first input).0) in
      let byte = shown (if nz (bit_and s.sub_data_out 0x80) then 1 else 0) in
      subst (λ (t : Glue × W). (bus p miso t.1 ≡ cycle miso b (s, v)) × IsShown p miso byte t)
        (sym path)
        (
          ap (λ (t : IoPort (Spi V × V) × (Spi V × V)). t.1) (apart _ w1) ∙ at,
          (refl, refl, present_lem p byte w1),
        )

  exchange_bits_lem :
      (b : Bool) (bs : List Bool) (n : ℕ) (g : Glue) (w : W) (s : Spi V) (v : V)
      → n + suc (length bs) ≡ 8
      → IsExchanging n g s v
      → IsWired p miso w
      → bus p miso w ≡ (s, v)
      → let s' = exchange_bits p miso (b ∷ bs) (g, w) in
        (bus p miso s'.1 ≡ cycles miso (b ∷ bs) (s, v))
        × IsShown p miso
            (from_bits g.miso_shift_data (shifted_out (suc (length bs)) s.sub_data_out) % 256)
            s'
  exchange_bits_lem b [] n g w s v h exchanging wired e =
      let done =
        exchange_bit-byte b g w s v (subst (λ n. IsExchanging n g s v) (seventh n h) exchanging)
          wired e in
      (
        done.0,
        subst (λ value. IsShown p miso value (exchange_bit p miso b (g, w)))
            (within _ ∙ shift_in [] g.miso_shift_data (nz (bit_and s.sub_data_out 0x80))) done.1,
      )
    where
      seventh : (n : ℕ) → n + 1 ≡ 8 → n ≡ 7
      seventh n h = omega arith

      within : (n : ℕ) → u8 n ≡ u8 n % 256
      within n = omega arith
  exchange_bits_lem b (c ∷ bs) n g w s v h (mask, count, selected, sampled, first, input, callback)
        wired e =
      let early = before_last (length bs) n h in
      let step =
        exchange_bit-wait b n g w s v early (mask, count, selected, sampled, first, input, callback)
          wired e in
      let v1 = Spi.Exchange.present miso s.miso_mask (shifted_out 1 s.sub_data_out) v in
      let top = nz (bit_and s.sub_data_out 0x80) in
      let g1 = record g {
        clock_on_last_tick = false;
        prev_clock = 1;
        miso_shift_data = u8 (bit_or (g.miso_shift_data <<< 1) (if top then 1 else 0));
        shift_count = g.shift_count + 1;
      } in
      let rest =
        exchange_bits_lem c bs (suc n) g1 (raised p miso b w) (after miso b s) v1
          (next (length bs) n h)
          (
            mask,
            ap (λ (k : ℕ). k + 1) count ∙ counted n,
            selected,
            (byte_counted n early sampled.0, refl, sampled.2, sampled.3),
            first,
            (shift_out miso s v first input).1,
            callback,
          )
          step.2 step.1 in
      let cycled =
        cycle_wait miso b s v (refl, sampled.1, sampled.2, sampled.3) (within sampled.0 early) in
      let bits = shifted_out (suc (length bs)) (u8 (s.sub_data_out <<< 1)) in
      subst
        (λ (t : Glue × W).
          (bus p miso (exchange_bits p miso (c ∷ bs) t).1 ≡ cycles miso (b ∷ c ∷ bs) (s, v))
          × IsShown p miso (from_bits g.miso_shift_data (top ∷ bits) % 256)
              (exchange_bits p miso (c ∷ bs) t))
        (sym step.0)
        (
          rest.0 ∙ ap (cycles miso (c ∷ bs)) (sym cycled),
          subst
              (λ value.
                IsShown p miso value (exchange_bits p miso (c ∷ bs) (g1, raised p miso b w)))
              (shift_in bits g.miso_shift_data top) rest.1,
        )
    where
      before_last : (l n : ℕ) → n + suc (suc l) ≡ 8 → n < 7
      before_last l n h = omega arith

      next : (l n : ℕ) → n + suc (suc l) ≡ 8 → suc n + suc l ≡ 8
      next l n h = omega arith

      counted : (n : ℕ) → n + 1 ≡ suc n
      counted n = omega arith

      byte_counted : {k : ℕ} (n : ℕ) → n < 7 → k ≡ n → u8 (k + 1) ≡ suc n
      byte_counted n h e = omega arith

      within : {k n : ℕ} → k ≡ n → n < 7 → k < 7
      within e h = omega arith

  -- Eight cycles of the clock, which the processor makes by writing to the adapter, carry the bits
  -- of a byte to the card through the glue and the SPI bus: the card is called with that byte and
  -- its answer is ready to be sent next, and the byte that was to be sent before is then in the
  -- glue and on the port of the adapter. The card is selected, the clock and MISO are the first pins
  -- of their ports, the glue and the bus are between two bytes with the clock high, the clock port
  -- drives the bus alone, the MISO port of the glue is the one that the bus sets and an input of
  -- eight pins, the port of the adapter is apart from the clock port, the card leaves the MISO port
  -- alone, and what is sent each way is a byte.
  pub exchange_bits-to_bits :
      (value : ℕ) (g : Glue) (w : W)
      → value < 256
      → (bus p miso w).0.sub_data_out < 256
      → IsExchanging 0 g (bus p miso w).0 (bus p miso w).1
      → IsWired p miso w
      → let (s, v) = bus p miso w in
        let s' = exchange_bits p miso (to_bits 8 value) (g, w) in
        IsAnswered miso s value
          (Spi.Exchange.present miso s.miso_mask (to_bits 8 s.sub_data_out) v)
          (bus p miso s'.1)
        × IsShown p miso s.sub_data_out s'
  exchange_bits-to_bits value g w hv ho exchanging wired =
      let s = (bus p miso w).0 in
      let v = (bus p miso w).1 in
      let done =
        exchange_bits_lem (value / 2 ^ 7 % 2 == 1) (to_bits 7 value) 0 g w s v refl exchanging wired
          refl in
      (
        subst
            (IsAnswered miso s value
              (Spi.Exchange.present miso s.miso_mask (to_bits 8 s.sub_data_out) v))
            (sym done.0) (cycles-to_bits miso value s v hv ho exchanging.3),
        subst (λ sent. IsShown p miso sent (exchange_bits p miso (to_bits 8 value) (g, w)))
            (ap (λ bits. from_bits g.miso_shift_data bits % 256)
                (shifted_out-byte s.sub_data_out ho)
              ∙ whole_byte g.miso_shift_data s.sub_data_out ho)
            done.1,
      )
