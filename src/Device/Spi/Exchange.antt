-- ===== src/Device/Spi/Exchange.antt =====
-- A byte each way in eight clock cycles (emulator/spi.cc).
use hd6301_thing.Common.{
  ℕ, suc, ◌+◌, ◌%◌, ◌<◌, ◌≡◌, ◌≢◌, refl, sym, ◌∙◌, ap, arith, true, false, Bool, nz, bit_and,
  bit_or, ltb, ◌==◌, if◌then◌else◌, List, [], ◌∷◌, length, u8, ◌<<<◌, subst, bit_and_zero,
  bit_and_self, ◌^◌, ◌/◌,
}
use hd6301_thing.Device.Spi.Bits.{
  to_bits, from_bits, shifted_out, shifted_out-byte, shift_in, whole_byte,
}
use hd6301_thing.Part.{Part}
use hd6301_thing.Device.Port.{IoPort}
use hd6301_thing.Device.Spi.{
  Spi, provide, rising_edge, falling_edge, clk_data_in, sub_data_in, answer,
}

module _ {W V : Type 0} (miso : Part W (IoPort V × V)) where
  -- The clock falls, the processor sets MOSI, and the clock rises.
  abbrev pub cycle : Bool → Spi W × W → Spi W × W
  cycle mosi (s, w) =
      let (s1, w1) = clk_data_in miso 0 (s, w) in
      clk_data_in miso s1.clk_mask (sub_data_in (if mosi then s1.mosi_mask else 0) s1, w1)

  abbrev pub cycles : List Bool → Spi W × W → Spi W × W
  cycles [] s = s
  cycles (b ∷ bs) s = cycles bs (cycle b s)

  -- The bits that the processor finds on MISO.
  abbrev pub present : ℕ → List Bool → W → W
  present mask [] w = w
  present mask (b ∷ bs) w = present mask bs (provide miso (if b then mask else 0) mask w)

module _ {W V : Type 0} (miso : Part W (IoPort V × V)) where
  -- Between two rising edges, with `n` bits of the byte sampled.
  abbrev pub IsSampled : ℕ → Spi W → Type 0
  IsSampled n s =
      (s.bit_count ≡ n) × (s.previous_clock ≡ s.clk_mask) × (s.clk_mask ≢ 0) × (s.mosi_mask ≢ 0)

  pub clk_low :
      (s : Spi W) (w : W) (n : ℕ)
      → IsSampled n s
      → clk_data_in miso 0 (s, w) ≡ (
        record s { previous_clock = 0; sub_data_out = u8 (s.sub_data_out <<< 1) },
        provide miso (if nz (bit_and s.sub_data_out 0x80) then s.miso_mask else 0) s.miso_mask w,
      )
  unfolding clk_data_in falling_edge
  clk_low s w n (h0, h1, h2, h3) =
      rw (bit_and_zero s.clk_mask, differs)
        (ap (λ v. (record s { previous_clock = 0; sub_data_out = u8 (s.sub_data_out <<< 1) }, v))
          (if_provide (nz (bit_and s.sub_data_out 0x80))))
    where
      differs : (0 == s.previous_clock) ≡ false
      differs = ground arith

      if_provide :
          (b : Bool)
          → (if b then provide miso s.miso_mask s.miso_mask w else provide miso 0 s.miso_mask w)
            ≡ provide miso (if b then s.miso_mask else 0) s.miso_mask w
      if_provide true = refl
      if_provide false = refl

  clk_high :
      (s : Spi W) (w : W)
      → s.previous_clock ≡ 0
      → s.clk_mask ≢ 0
      → clk_data_in miso s.clk_mask (s, w)
        ≡ rising_edge miso (record s { previous_clock = s.clk_mask }, w)
  unfolding clk_data_in
  clk_high s w h0 h1 = rw (bit_and_self s.clk_mask, differs, positive) refl
    where
      differs : (s.clk_mask == s.previous_clock) ≡ false
      differs = ground arith

      positive : ltb 0 s.clk_mask ≡ true
      positive = ground arith

  mosi_set :
      (b : Bool) (s : Spi W)
      → s.mosi_mask ≢ 0
      → sub_data_in (if b then s.mosi_mask else 0) s ≡ record s { mosi_bit = if b then 1 else 0 }
  unfolding sub_data_in
  mosi_set true s h = rw (bit_and_self s.mosi_mask, positive) refl
    where
      positive : nz s.mosi_mask ≡ true
      positive = ground arith
  mosi_set false s h = rw (bit_and_zero s.mosi_mask) refl

  -- The state after a rising edge that does not end a byte.
  abbrev pub after : Bool → Spi W → Spi W
  after b s = record s {
    previous_clock = s.clk_mask;
    sub_data_out = u8 (s.sub_data_out <<< 1);
    sub_data_in = u8 (bit_or (s.sub_data_in <<< 1) (if b then 1 else 0));
    bit_count = u8 (s.bit_count + 1);
    mosi_bit = if b then 1 else 0;
  }

  pub cycle_lem :
      (b : Bool) (s : Spi W) (w : W) (n : ℕ)
      → IsSampled n s
      → let s1 = record s {
        previous_clock = s.clk_mask;
        sub_data_out = u8 (s.sub_data_out <<< 1);
        mosi_bit = if b then 1 else 0;
      } in
        cycle miso b (s, w)
        ≡ rising_edge miso (s1, present miso s.miso_mask (shifted_out 1 s.sub_data_out) w)
  cycle_lem b s w n h =
      let low = record s { previous_clock = 0; sub_data_out = u8 (s.sub_data_out <<< 1) } in
      let w1 = present miso s.miso_mask (shifted_out 1 s.sub_data_out) w in
      ap
        (λ (t : Spi W × W).
          clk_data_in miso t.0.clk_mask (sub_data_in (if b then t.0.mosi_mask else 0) t.0, t.1))
        (clk_low s w n h)
      ∙ ap (λ (t : Spi W). clk_data_in miso s.clk_mask (t, w1)) (mosi_set b low h.3)
      ∙ clk_high (record low { mosi_bit = if b then 1 else 0 }) w1 refl h.2

  pub rising_edge-wait :
      (s : Spi W) (w : W)
      → s.bit_count < 7
      → rising_edge miso (s, w) ≡ (
        record s {
          sub_data_in = u8 (bit_or (s.sub_data_in <<< 1) s.mosi_bit);
          bit_count = u8 (s.bit_count + 1);
        },
        w,
      )
  unfolding rising_edge
  rising_edge-wait s w h = rw (differs) refl
    where
      differs : (u8 (s.bit_count + 1) == 8) ≡ false
      differs = ground arith

  pub rising_edge-byte :
      (s : Spi W) (w : W)
      → s.bit_count ≡ 7
      → let (out, w1) =
          answer s.byte_received_callback (u8 (bit_or (s.sub_data_in <<< 1) s.mosi_bit)) w in
        rising_edge miso (s, w) ≡ (
          record s {
            sub_data_in = u8 (bit_or (s.sub_data_in <<< 1) s.mosi_bit);
            bit_count = 0;
            sub_data_out = out;
          },
          w1,
        )
  unfolding rising_edge
  rising_edge-byte s w h = rw (h) refl

  -- A byte `value` was received and answered, with `w` the world before that.
  abbrev pub IsAnswered : Spi W → ℕ → W → Spi W × W → Type 0
  IsAnswered s value w (s', w') =
      let (out, w1) = answer s.byte_received_callback value w in
      IsSampled 0 s'
      × (s'.sub_data_out ≡ out)
      × (s'.sub_data_in ≡ value)
      × (s'.byte_received_callback ≡ s.byte_received_callback)
      × (w' ≡ w1)

  cycles_lem :
      (b : Bool) (bs : List Bool) (n : ℕ) (s : Spi W) (w : W)
      → n + suc (length bs) ≡ 8
      → IsSampled n s
      → IsAnswered s
          (from_bits s.sub_data_in (b ∷ bs) % 256)
          (present miso s.miso_mask (shifted_out (suc (length bs)) s.sub_data_out) w)
          (cycles miso (b ∷ bs) (s, w))
  cycles_lem b [] n s w h sampled =
      let s1 = record s {
        previous_clock = s.clk_mask;
        sub_data_out = u8 (s.sub_data_out <<< 1);
        mosi_bit = if b then 1 else 0;
      } in
      let w1 = present miso s.miso_mask (shifted_out 1 s.sub_data_out) w in
      let received = u8 (bit_or (s.sub_data_in <<< 1) (if b then 1 else 0)) in
      let path = cycle_lem b s w n sampled ∙ rising_edge-byte s1 w1 (seventh n h sampled.0) in
      subst (λ v. IsAnswered s v w1 (cycle miso b (s, w)))
        (within (bit_or (s.sub_data_in <<< 1) (if b then 1 else 0)) ∙ shift_in [] s.sub_data_in b)
        (subst (IsAnswered s received w1) (sym path)
          ((refl, refl, sampled.2, sampled.3), refl, refl, refl, refl))
    where
      seventh : (n : ℕ) → n + 1 ≡ 8 → s.bit_count ≡ n → s.bit_count ≡ 7
      seventh n h e = omega arith

      within : (n : ℕ) → u8 n ≡ u8 n % 256
      within n = omega arith
  cycles_lem b (c ∷ bs) n s w h sampled =
      let s1 = after b s in
      let s0 = record s1 { sub_data_in = s.sub_data_in; bit_count = s.bit_count } in
      let w1 = present miso s.miso_mask (shifted_out 1 s.sub_data_out) w in
      let path =
        cycle_lem b s w n sampled ∙ rising_edge-wait s0 w1 (early (length bs) n h sampled.0) in
      subst
        (λ v.
          IsAnswered s v
            (present miso s.miso_mask (shifted_out (suc (length bs)) s1.sub_data_out) w1)
            (cycles miso (b ∷ c ∷ bs) (s, w)))
        (shift_in (c ∷ bs) s.sub_data_in b)
        (subst
          (λ t.
            IsAnswered s (from_bits s1.sub_data_in (c ∷ bs) % 256)
              (present miso s.miso_mask (shifted_out (suc (length bs)) s1.sub_data_out) w1)
              (cycles miso (c ∷ bs) t))
          (sym path)
          (cycles_lem c bs (suc n) s1 w1 (next (length bs) n h)
            (counted (length bs) n h sampled.0, refl, sampled.2, sampled.3)))
    where
      early : (l n : ℕ) → n + suc (suc l) ≡ 8 → s.bit_count ≡ n → s.bit_count < 7
      early l n h e = omega arith

      next : (l n : ℕ) → n + suc (suc l) ≡ 8 → suc n + suc l ≡ 8
      next l n h = omega arith

      counted : (l n : ℕ) → n + suc (suc l) ≡ 8 → s.bit_count ≡ n → u8 (s.bit_count + 1) ≡ suc n
      counted l n h e = omega arith

  -- Eight clock cycles, in mode 0, that carry the bits of a byte from the processor, the highest
  -- first, present the bits of the byte to send on MISO in the same order, call the callback with
  -- the byte, and leave its answer to be sent next and the bus ready for that. The clock is high
  -- and no bit of a byte sampled when they start.
  pub cycles-to_bits :
      (value : ℕ) (s : Spi W) (w : W)
      → value < 256
      → s.sub_data_out < 256
      → IsSampled 0 s
      → IsAnswered s value
          (present miso s.miso_mask (to_bits 8 s.sub_data_out) w)
          (cycles miso (to_bits 8 value) (s, w))
  cycles-to_bits value s w hv ho sampled =
      let first = value / 2 ^ 7 % 2 == 1 in
      let answered = cycles_lem first (to_bits 7 value) 0 s w (omega arith) sampled in
      subst
        (λ v.
          IsAnswered s v (present miso s.miso_mask (to_bits 8 s.sub_data_out) w)
            (cycles miso (to_bits 8 value) (s, w)))
        (whole_byte s.sub_data_in value hv)
        (subst
          (λ bits.
            IsAnswered s (from_bits s.sub_data_in (to_bits 8 value) % 256)
              (present miso s.miso_mask bits w) (cycles miso (to_bits 8 value) (s, w)))
          (shifted_out-byte s.sub_data_out ho) answered)
