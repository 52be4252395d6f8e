-- ===== src/Sound/Buffer.antt =====
-- The buffer of the audio callback, and writes to the two banks of the chip (emulator/sound_opl3.cc).
use hd6301_thing.Common.{ℕ, ◌+◌, ◌-◌, ◌*◌, ◌<◌, ◌≤◌, ◌≡◌, arith, ◌↔◌, bit_or, u16}
use hd6301_thing.Sound.{SoundOpl3, write, sample_count, buffer_size, bytes_per_sample}

-- The samples of a callback fit into its buffer exactly when SDL needs fewer than 4100 bytes; what it
-- needs is generated, but for a part of a sample, and no more than it takes, if it takes what it needs.
pub sample_count_lem :
    (additional_amount total_amount : ℕ)
    → additional_amount ≤ total_amount
    → let bytes = sample_count additional_amount total_amount * bytes_per_sample in
      ((bytes ≤ buffer_size) ↔ (additional_amount < 4100))
      × (additional_amount < bytes + bytes_per_sample)
      × (bytes ≤ total_amount)
unfolding sample_count
sample_count_lem additional_amount total_amount h =
    ((λ fits. omega arith, λ few. omega arith), omega arith, omega arith)

module _ {C : Type 0} (write_reg : ℕ → ℕ → C → C) where
  -- A write of the number of a register to the first or third port of the chip, and then of a value to the second one, writes that register: of the first bank, or of the
  -- second.
  pub write_lem :
      (register value : ℕ) (s : SoundOpl3 C)
      → s.base_address < 65533
      → ((write write_reg
            (s.base_address + 1)
            value
            (write write_reg s.base_address register s)).opl3_chip
          ≡ write_reg register value s.opl3_chip)
        × ((write write_reg
              (s.base_address + 1)
              value
              (write write_reg (s.base_address + 2) register s)).opl3_chip
            ≡ write_reg (bit_or 0x100 register) value s.opl3_chip)
  unfolding write
  write_lem register value s h = ground (arith, first, second, third)
    where
      first : u16 (s.base_address + 65536 - s.base_address) ≡ 0
      first = omega arith

      second : u16 (s.base_address + 1 + 65536 - s.base_address) ≡ 1
      second = omega arith

      third : u16 (s.base_address + 2 + 65536 - s.base_address) ≡ 2
      third = omega arith
