-- ===== src/Machine/Regions.antt =====
-- Which addresses belong to which part of the machine (emulator/hd6301_thing.cc).
use hd6301_thing.Common.{
  ℕ, ◌+◌, ◌-◌, ◌≡◌, refl, ap, ◌∙◌, List, [], ◌∷◌, map, Option, none, some, u16, length,
}
use hd6301_thing.Memory.{
  AddressSpace, ReadAddressRange, WriteAddressRange, register_read, register_write, reads_overlap,
  writes_overlap,
}
use hd6301_thing.Storage.{
  Storage, initialize_rom, initialize_ram, last_address, read_range, write_range,
}
use hd6301_thing.Part.{Part}
use hd6301_thing.Device.Serial
use hd6301_thing.Device.Timer.Mapping.{map_timer, map_read, map_write}
use hd6301_thing.Device.Uart.{initialize_uart}
use hd6301_thing.Device.Via.Mapping.{map_via}
use hd6301_thing.Machine.Map.{
  Devices, create_map, next_part, initialize_cpu, map_graphics, map_sound, map_direction, map_data,
  map_register,
}

-- The first and the last address of each range, in the order of registration.
abbrev pub bounds : {W : Type 0} → Option (AddressSpace W) → Option (List (ℕ × ℕ) × List (ℕ × ℕ))
bounds none = none
bounds (some m) =
    some (map (λ r. (r.start, r.end)) m.read_ranges, map (λ r. (r.start, r.end)) m.write_ranges)

-- The registers of the processor: the timer, the serial port, and the ports.
abbrev pub internal_registers : List (ℕ × ℕ) → List (ℕ × ℕ)
internal_registers rest =
    (0x08, 0x08)
    ∷ (0x09, 0x09)
    ∷ (0x0a, 0x0a)
    ∷ (0x10, 0x13)
    ∷ (0x00, 0x00)
    ∷ (0x02, 0x02)
    ∷ (0x01, 0x01)
    ∷ (0x03, 0x03)
    ∷ rest

-- A storage of `size` bytes at `base` ends at `last`.
last_address_lem :
    (s : Storage) (base size last : ℕ)
    → s.base_address ≡ base
    → length s.bytes ≡ size
    → u16 (base + size - 1) ≡ last
    → last_address s ≡ last
unfolding last_address
last_address_lem s base size last h1 h2 h3 =
    ap (λ (n : ℕ). u16 (n + length s.bytes - 1)) h1 ∙ ap (λ (n : ℕ). u16 (base + n - 1)) h2 ∙ h3

module _ {W : Type 0} (part : Part W Storage) (s : Storage) where
  read_callback : ℕ → W → ℕ × W
  read_callback = (read_range part s).callback

  write_callback : ℕ → ℕ → W → W
  write_callback = (write_range part s).callback

  read_range_lem :
      (base last : ℕ)
      → s.base_address ≡ base
      → last_address s ≡ last
      → read_range part s ≡ record { start = base; end = last; callback = read_callback }
  unfolding read_range read_callback
  read_range_lem base last h1 h2 =
      λ i. record { start = h1 i; end = h2 i; callback = read_callback }

  write_range_lem :
      (base last : ℕ)
      → s.base_address ≡ base
      → last_address s ≡ last
      → write_range part s ≡ record { start = base; end = last; callback = write_callback }
  unfolding write_range write_callback
  write_range_lem base last h1 h2 =
      λ i. record { start = h1 i; end = h2 i; callback = write_callback }

module _ {W V C : Type 0} (d : Devices W V C) where
  -- The registrations of `create` from the three ranges of the memories on.
  after_memories :
      ReadAddressRange W → ReadAddressRange W → WriteAddressRange W → Option (AddressSpace W)
  after_memories rom ram ram_write =
      let with_rom = register_read (record { read_ranges = []; write_ranges = [] }) rom in
      let with_ram =
        next_part with_rom (λ m. elim (register_read m ram) [
          | none ↦ none
          | some m' ↦ register_write m' ram_write
        ]) in
      let with_graphics = next_part with_ram (map_graphics d 0x7fc0) in
      let with_cpu = next_part with_graphics (initialize_cpu d) in
      let with_sound = next_part with_cpu (λ m. some (map_sound d 0x7f80 m)) in
      let with_uart = next_part with_sound (initialize_uart d.uart 0x7f40) in
      next_part with_uart (map_via d.via 0x7f20)

  create_map-after_memories :
      (rom ram : Storage)
      → create_map d rom ram
        ≡ after_memories (read_range d.rom rom) (read_range d.ram ram) (write_range d.ram ram)
  unfolding create_map after_memories initialize_rom initialize_ram
  create_map-after_memories rom ram = refl

  regions :
      (f f' : ℕ → W → ℕ × W) (g : ℕ → ℕ → W → W)
      → bounds (
          after_memories
            (record { start = 0x8000; end = 0xffff; callback = f })
            (record { start = 0x20; end = 0x7eff; callback = f' })
            (record { start = 0x20; end = 0x7eff; callback = g }))
        ≡ some (
          (0x8000, 0xffff)
              ∷ (0x20, 0x7eff)
              ∷ internal_registers ((0x7f80, 0x7f80) ∷ (0x7f40, 0x7f4f) ∷ (0x7f20, 0x7f2f) ∷ []),
          (0x20, 0x7eff)
              ∷ (0x7fc0, 0x7fff)
              ∷ internal_registers ((0x7f80, 0x7f83) ∷ (0x7f40, 0x7f4f) ∷ (0x7f20, 0x7f2f) ∷ []),
        )
  unfolding after_memories initialize_cpu map_graphics map_sound map_direction map_data map_register
      register_read register_write reads_overlap writes_overlap Serial.initialize map_timer map_read
      map_write initialize_uart map_via
  regions f f' g = refl

  -- With a ROM of 0x8000 bytes at 0x8000 and a RAM of 0x7ee0 bytes at 0x20, no registration of `create` is
  -- refused: the machine has these two for reads, then the registers of the processor, and the sound
  -- chip, the UART and the adapter above the RAM; for writes it has the same, with no ROM, and the
  -- display.
  pub create_map_lem :
      (rom ram : Storage)
      → rom.base_address ≡ 0x8000
      → length rom.bytes ≡ 0x8000
      → ram.base_address ≡ 0x20
      → length ram.bytes ≡ 0x7ee0
      → bounds (create_map d rom ram)
        ≡ some (
          (0x8000, 0xffff)
              ∷ (0x20, 0x7eff)
              ∷ internal_registers ((0x7f80, 0x7f80) ∷ (0x7f40, 0x7f4f) ∷ (0x7f20, 0x7f2f) ∷ []),
          (0x20, 0x7eff)
              ∷ (0x7fc0, 0x7fff)
              ∷ internal_registers ((0x7f80, 0x7f83) ∷ (0x7f40, 0x7f4f) ∷ (0x7f20, 0x7f2f) ∷ []),
        )
  create_map_lem rom ram h1 h2 h3 h4 =
      let rom_last = last_address_lem rom 0x8000 0x8000 0xffff h1 h2 refl in
      let ram_last = last_address_lem ram 0x20 0x7ee0 0x7eff h3 h4 refl in
      ap bounds (create_map-after_memories rom ram)
      ∙ ap (λ r. bounds (after_memories r (read_range d.ram ram) (write_range d.ram ram)))
          (read_range_lem d.rom rom 0x8000 0xffff h1 rom_last)
      ∙ ap
          (λ r. bounds (
            after_memories
              (record { start = 0x8000; end = 0xffff; callback = read_callback d.rom rom }) r
              (write_range d.ram ram)))
          (read_range_lem d.ram ram 0x20 0x7eff h3 ram_last)
      ∙ ap
          (λ r. bounds (
            after_memories
              (record { start = 0x8000; end = 0xffff; callback = read_callback d.rom rom })
              (record { start = 0x20; end = 0x7eff; callback = read_callback d.ram ram }) r))
          (write_range_lem d.ram ram 0x20 0x7eff h3 ram_last)
      ∙ regions (read_callback d.rom rom) (read_callback d.ram ram) (write_callback d.ram ram)
