-- ===== src/Machine/Map.antt =====
-- The memory map of the machine: what `HD6301Thing::create` registers, through the parts it
-- creates, in its order (emulator/hd6301_thing.cc, emulator/cpu6301.cc). The emulation of the sound
-- chip is a parameter.
use hd6301_thing.Common.{ℕ, ◌+◌, [], Option, none, some, u16}
use hd6301_thing.Memory
use hd6301_thing.Memory.{AddressSpace, ReadAddressRange, WriteAddressRange}
use hd6301_thing.Part.{Part}
use hd6301_thing.Screen
use hd6301_thing.Screen.{Display}
use hd6301_thing.Sound
use hd6301_thing.Sound.{SoundOpl3}
use hd6301_thing.Storage.{Storage, initialize_rom, initialize_ram}
use hd6301_thing.Device.Interrupt.{Interrupt}
use hd6301_thing.Device.Port.{
  IoPort, read_data_direction_register, write_data_direction_register, read_input_register,
  write_output_register,
}
use hd6301_thing.Device.Serial
use hd6301_thing.Device.Serial.{Serial}
use hd6301_thing.Device.Timer.{Timer}
use hd6301_thing.Device.Timer.Mapping.{map_timer, or_unchanged}
use hd6301_thing.Device.Uart.{Uart, initialize_uart}
use hd6301_thing.Device.Via.{Via}
use hd6301_thing.Device.Via.Mapping.{map_via}

-- The parts of a world that the registered callbacks act on.
pub record Devices (W V C : Type 0) : Type 0 where
  pub rom : Part W Storage
  pub ram : Part W Storage
  pub timer : Part W (Timer × Interrupt)
  pub serial : Part W (Serial × Interrupt)
  pub port1 : Part W (IoPort V × V)
  pub port2 : Part W (IoPort V × V)
  pub uart : Part W (Uart × Interrupt)
  pub via : Part W (Via V)
  pub graphics : Part W Display
  pub sound : Part W (SoundOpl3 C)
  pub write_reg_buffered : ℕ → ℕ → C → C

module _ {W : Type 0} where
  -- The first registration that fails ends the creation.
  abbrev pub next_part :
      Option (AddressSpace W) → (AddressSpace W → Option (AddressSpace W)) → Option (AddressSpace W)
  next_part none f = none
  next_part (some m) f = f m

  -- One register of a port: reads and writes at one address.
  unfoldable pub map_register :
      ℕ → (ℕ → W → ℕ × W) → (ℕ → ℕ → W → W) → AddressSpace W → Option (AddressSpace W)
  map_register address read write m =
      next_part
        (Memory.register_read m (record { start = address; end = address; callback = read }))
        (λ m'.
          Memory.register_write m' (record { start = address; end = address; callback = write }))

module _ {W V : Type 0} (port : Part W (IoPort V × V)) where
  -- The data direction register of a port.
  unfoldable pub map_direction : ℕ → AddressSpace W → Option (AddressSpace W)
  unfolding map_register read_data_direction_register write_data_direction_register
  map_direction address =
      map_register address (λ a w. (read_data_direction_register (port.view w).0, w))
        (λ a value w.
          port.put (write_data_direction_register value (port.view w).0, (port.view w).1) w)

  -- The data register of a port.
  unfoldable pub map_data : ℕ → AddressSpace W → Option (AddressSpace W)
  unfolding map_register read_input_register write_output_register
  map_data address =
      map_register address (λ a w. (read_input_register (port.view w).0, w))
        (λ a value w. port.put (write_output_register value (port.view w)) w)

module _ {W V C : Type 0} (d : Devices W V C) where
  -- `Cpu6301::initialize`, after the timer of its constructor.
  unfoldable pub initialize_cpu : AddressSpace W → Option (AddressSpace W)
  unfolding map_timer map_direction map_data
  initialize_cpu m =
      let serial = Serial.initialize d.serial 0x0010 (map_timer d.timer m) in
      let direction1 = next_part serial (map_direction d.port1 0x0000) in
      let data1 = next_part direction1 (map_data d.port1 0x0002) in
      let direction2 = next_part data1 (map_direction d.port2 0x0001) in
      next_part direction2 (map_data d.port2 0x0003)

  -- `Graphics::initialize` and the constructor of SoundOPL3, which logs a failure.
  unfoldable pub map_graphics : ℕ → AddressSpace W → Option (AddressSpace W)
  map_graphics base m = Memory.register_write m (record {
    start = base;
    end = u16 (base + 63);
    callback = λ a value w. d.graphics.put (Screen.write a value (d.graphics.view w)) w;
  })

  unfoldable pub map_sound : ℕ → AddressSpace W → AddressSpace W
  map_sound base m =
      let m1 = or_unchanged d.timer m (
        Memory.register_write m (record {
          start = base;
          end = u16 (base + 3);
          callback = λ a value w.
              d.sound.put (Sound.write d.write_reg_buffered a value (d.sound.view w)) w;
        })) in
      or_unchanged d.timer m1 (
        Memory.register_read m1 (record {
          start = base;
          end = base;
          callback = λ a w. (Sound.read_status (d.sound.view w), w);
        }))

  -- `create`, with the ROM and the RAM that it creates.
  unfoldable pub create_map : Storage → Storage → Option (AddressSpace W)
  unfolding initialize_cpu map_graphics map_sound
  create_map rom ram =
      let with_rom = initialize_rom d.rom rom (record { read_ranges = []; write_ranges = [] }) in
      let with_ram = next_part with_rom (initialize_ram d.ram ram) in
      let with_graphics = next_part with_ram (map_graphics 0x7fc0) in
      let with_cpu = next_part with_graphics initialize_cpu in
      let with_sound = next_part with_cpu (λ m. some (map_sound 0x7f80 m)) in
      let with_uart = next_part with_sound (initialize_uart d.uart 0x7f40) in
      next_part with_uart (map_via d.via 0x7f20)
