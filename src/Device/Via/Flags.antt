-- ===== src/Device/Via/Flags.antt =====
-- Disabling interrupts of the W65C22 (emulator/w65c22.cc, the interrupt enable register).
use hd6301_thing.Common.{
  ℕ, ◌<◌, ◌≡◌, ◌≢◌, refl, arith, Bool, true, false, nz, bit_and, bit_or, ◌&&◌, ◌==◌, if◌then◌else◌,
  not8, holds_below, holds_below→at,
}
use hd6301_thing.Device.Interrupt.{Interrupt}
use hd6301_thing.Device.Via.{Via, quiet, clear_irq_flag}
use hd6301_thing.Device.Via.Write.{write_interrupt_enable}

-- Masking the top flag and setting it leave the other flags.
abbrev same_flag : ℕ → ℕ → Bool
same_flag irq x =
    (bit_and (bit_and x 0x7f) irq == bit_and x irq)
    && (bit_and (bit_or (bit_and x 0x7f) 0x80) irq == bit_and x irq)

same_flag_table :
    holds_below
      (λ x. same_flag 0x40 x && same_flag 0x20 x && same_flag 0x04 x && same_flag 0x02 x)
      256
    ≡ true
unfolding holds_below
same_flag_table = refl

module _ {W : Type 0} where
  -- An interrupt of the adapter is outstanding only while its flag is set.
  abbrev pub IsFlagged : Via W → Type 0
  IsFlagged v =
      (v.timer1_interrupt_id ≢ 0 → bit_and v.irq_flag_register 0x40 ≢ 0)
      × (v.timer2_interrupt_id ≢ 0 → bit_and v.irq_flag_register 0x20 ≢ 0)
      × (v.shift_register_interrupt_id ≢ 0 → bit_and v.irq_flag_register 0x04 ≢ 0)
      × (v.ca1_interrupt_id ≢ 0 → bit_and v.irq_flag_register 0x02 ≢ 0)

  quiet-flagged :
      (irq id : ℕ) (v : Via W) (line : Interrupt)
      → (id ≢ 0 → bit_and v.irq_flag_register irq ≢ 0)
      → quiet irq id v line ≡ (id, line)
  unfolding quiet
  quiet-flagged irq id v line h = ground arith

  -- Writing the interrupt enable register to disable interrupts leaves every outstanding interrupt of
  -- the adapter, and the line, as they were, when outstanding interrupts have their flags set.
  pub write_interrupt_enable_lem :
      (value : ℕ) (v : Via W)
      → nz (bit_and value 0x80) ≡ false
      → v.irq_flag_register < 256
      → IsFlagged v
      → let v' = write_interrupt_enable value v in
        (v'.interrupt ≡ v.interrupt)
        × (v'.timer1_interrupt_id ≡ v.timer1_interrupt_id)
        × (v'.timer2_interrupt_id ≡ v.timer2_interrupt_id)
        × (v'.shift_register_interrupt_id ≡ v.shift_register_interrupt_id)
        × (v'.ca1_interrupt_id ≡ v.ca1_interrupt_id)
  unfolding write_interrupt_enable clear_irq_flag
  write_interrupt_enable_lem value v clear byte (h1, h2, h3, h4) =
      let laws = holds_below→at _ 256 v.irq_flag_register byte same_flag_table in
      let enabled = bit_and v.irq_enable_register (bit_and (not8 value) 0x7f) in
      let flags = bit_and v.irq_flag_register 0x7f in
      let after = if nz (bit_and flags enabled) then bit_or flags 0x80 else flags in
      let v1 = record v { irq_enable_register = enabled; irq_flag_register = after } in
      rw
        (
          clear,
          quiet-flagged 0x40 v.timer1_interrupt_id v1 v.interrupt (ground arith),
          quiet-flagged 0x20 v.timer2_interrupt_id v1 v.interrupt (ground arith),
          quiet-flagged 0x04 v.shift_register_interrupt_id v1 v.interrupt (ground arith),
          quiet-flagged 0x02 v.ca1_interrupt_id v1 v.interrupt (ground arith),
        )
        (refl, refl, refl, refl, refl)
