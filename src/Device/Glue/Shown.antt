-- ===== src/Device/Glue/Shown.antt =====
-- What the adapter reads of the keyboard when it selects it (emulator/w65c22_to_spi_glue.cc).
use hd6301_thing.Common.{
  ℕ, ◌+◌, ◌/◌, ◌≡◌, refl, ap, ◌∙◌, true, ◌==◌, nz, bit_and, bit_or, bit_and_zero, bit_or_zero_left,
  List, [], ◌∷◌, ◌++◌, drop, Bool-cases, inl, inr, Option, if◌then◌else◌,
}
use hd6301_thing.Common.Int.{is_zero}
use hd6301_thing.Device.Port.{IoPort, provide_inputs}
use hd6301_thing.Device.Keyboard.{KeyEvent, event_bytes}
use hd6301_thing.Device.Glue.{
  Glue, Ports, present, clk_bit_in, switch_changed, miso_bit_in, take_key, keyboard_tick,
  clock_tick, tick, push_all, handle_keyboard_event,
}
use hd6301_thing.Device.Glue.Keys.{
  Event, ticked, clock_in, switched, bit_in, tick_count, last_taken, step, run,
  handle_keyboard_event_lem,
}

push_all-mask :
    (bytes : List ℕ) (g : Glue) → (push_all bytes g).output_switch_mask ≡ g.output_switch_mask
unfolding push_all
push_all-mask [] g = refl
push_all-mask (b ∷ bytes) g = push_all-mask bytes _

module _ {W A B C D : Type 0} (p : Ports W A B C D) where
  -- A byte for the adapter is what its port then has.
  pub present_lem :
      (value : ℕ) (w : W) → (p.parallel_out.view (present p value w)).0.input_register ≡ value
  unfolding present provide_inputs
  present_lem value w =
      let port = (p.parallel_out.view w).0 in
      ap (λ (t : IoPort D × D). t.0.input_register)
        (p.parallel_out.view-put (provide_inputs value 0xff (p.parallel_out.view w)) w)
      ∙ ap (λ n. bit_or n value) (bit_and_zero port.input_register)
      ∙ bit_or_zero_left value

  -- The pin of the selection stays the same.
  miso_bit_in-mask :
      (value : ℕ) (g : Glue) (w : W)
      → (miso_bit_in p value (g, w)).0.output_switch_mask ≡ g.output_switch_mask
  unfolding miso_bit_in
  miso_bit_in-mask value g w = elim (Bool-cases (g.shift_count + 1 == 8)) [
    | inl e ↦ rw e refl
    | inr e ↦ rw e refl
  ]

  clock_tick-mask :
      (g : Glue) (w : W) → (clock_tick p (g, w)).0.output_switch_mask ≡ g.output_switch_mask
  unfolding clock_tick
  clock_tick-mask g w = elim (Bool-cases g.clock_on_last_tick) [
    | inl on ↦ elim (Bool-cases (g.prev_clock == 1)) [
      | inl rising ↦ rw (on, rising) (miso_bit_in-mask _ _ _)
      | inr falling ↦ rw (on, falling) refl
    ]
    | inr off ↦ rw off refl
  ]

  take_key-mask :
      (q : List ℕ) (g : Glue) (w : W)
      → (take_key p q (g, w)).0.output_switch_mask ≡ g.output_switch_mask
  unfolding take_key
  take_key-mask [] g w = refl
  take_key-mask (b ∷ q) g w = refl

  keyboard_tick-mask :
      (g : Glue) (w : W) → (keyboard_tick p (g, w)).0.output_switch_mask ≡ g.output_switch_mask
  unfolding keyboard_tick
  keyboard_tick-mask g w = elim (Bool-cases (is_zero g.keyboard_tick_countdown)) [
    | inl e ↦ rw e (take_key-mask g.keyboard_data_queue g w)
    | inr e ↦ rw e refl
  ]

  step-mask :
      (e : Event) (g : Glue) (w : W) → (step p e (g, w)).0.output_switch_mask ≡ g.output_switch_mask
  unfolding tick clk_bit_in switch_changed
  step-mask ticked g w =
      let (g1, w1) = clock_tick p (g, w) in keyboard_tick-mask g1 w1 ∙ clock_tick-mask g w
  step-mask (clock_in value) g w = refl
  step-mask (switched value) g w = refl
  step-mask (bit_in value) g w = miso_bit_in-mask value g w

  run-mask :
      (es : List Event) (g : Glue) (w : W)
      → (run p es (g, w)).0.output_switch_mask ≡ g.output_switch_mask
  run-mask [] g w = refl
  run-mask (e ∷ es) g w = let (g1, w1) = step p e (g, w) in run-mask es g1 w1 ∙ step-mask e g w

  -- A key is pressed or released, then anything else may happen; with every 1001 ticks a byte is
  -- taken from the queue. When the adapter then selects the keyboard, its port has the last byte
  -- that was taken, or the one of before if there is none, and the bytes that are left are queued.
  pub handle_keyboard_event-switch_changed :
      (es : List Event) (b : ℕ) (bytes : List ℕ) (keymap : ℕ → Option (List ℕ × List ℕ))
      (event : KeyEvent) (value : ℕ) (g : Glue) (w : W)
      → event_bytes keymap event ≡ b ∷ bytes
      → nz (bit_and value g.output_switch_mask) ≡ true
      → let (g', w') =
          switch_changed p value (run p es (handle_keyboard_event keymap event g, w)) in
        let taken = tick_count es / 1001 in
        let queue = g.keyboard_data_queue ++ b ∷ bytes in
        ((p.parallel_out.view w').0.input_register ≡ last_taken taken queue g.keyboard_data)
        × (g'.keyboard_data_queue ≡ drop taken queue)
  unfolding switch_changed handle_keyboard_event
  handle_keyboard_event-switch_changed es b bytes keymap event value g w e selected =
      let taken = handle_keyboard_event_lem p es b bytes keymap event g w e in
      let (g1, w1) = run p es (handle_keyboard_event keymap event g, w) in
      let mask =
        run-mask es (handle_keyboard_event keymap event g) w
        ∙ push_all-mask (event_bytes keymap event) g in
      let on = ap (λ (m : ℕ). nz (bit_and value m)) mask ∙ selected in
      (
        present_lem
              (if nz (bit_and value g1.output_switch_mask)
                then g1.keyboard_data
                else g1.sd_card_data)
              w1
            ∙ ap (λ c. if c then g1.keyboard_data else g1.sd_card_data) on
            ∙ taken.1,
        taken.0,
      )
