-- ===== src/Sound.antt =====
-- emulator/sound_opl3.h and .cc: the sound chip. The emulation of the chip (OPL3_WriteRegBuffered and
-- OPL3_GenerateStream) and the stream of SDL are parameters; creating them is left out.
pub mod Buffer
use hd6301_thing.Common.{
  ℕ, ◌+◌, ◌-◌, ◌*◌, ◌/◌, ◌%◌, min, max, bit_or, ◌==◌, if◌then◌else◌, List, [], ◌∷◌, switch, u16,
}

abbrev pub max_num_samples : ℕ
max_num_samples = 1024

abbrev pub bytes_per_sample : ℕ
bytes_per_sample = 4

-- The chip, and the static variable of `write`.
pub record SoundOpl3 (C : Type 0) : Type 0 where
  pub base_address : ℕ
  pub opl3_chip : C
  pub write_address : ℕ

module _ {C : Type 0} where
  unfoldable pub write : (ℕ → ℕ → C → C) → ℕ → ℕ → SoundOpl3 C → SoundOpl3 C
  write write_reg_buffered address value s =
      switch (u16 (address + 65536 - s.base_address))
        ((0, record s { write_address = value })
          ∷ (1, record s { opl3_chip = write_reg_buffered s.write_address value s.opl3_chip })
          ∷ (2, record s { write_address = bit_or 0x100 value })
          ∷ [])
        s

  -- `read_status`, which is to be implemented.
  unfoldable pub read_status : SoundOpl3 C → ℕ
  read_status s = 0

-- The samples to generate, from the bytes that SDL needs at least and takes at most.
unfoldable pub sample_count : ℕ → ℕ → ℕ
sample_count additional_amount total_amount =
    max (additional_amount / bytes_per_sample)
      (min (total_amount / bytes_per_sample) max_num_samples)

-- The bytes of the buffer of the callback.
abbrev pub buffer_size : ℕ
buffer_size = max_num_samples * bytes_per_sample

module _ {C S : Type 0} (generate_stream : ℕ → C → List ℕ × C) (put : List ℕ → S → S) where
  -- `AudioCallback`: the samples that are generated go to the stream.
  unfoldable pub audio_callback : ℕ → ℕ → SoundOpl3 C × S → SoundOpl3 C × S
  unfolding sample_count
  audio_callback additional_amount total_amount (s, stream) =
      let (bytes, chip) =
        generate_stream (sample_count additional_amount total_amount) s.opl3_chip in
      (record s { opl3_chip = chip }, put bytes stream)
