-- ===== src/Machine/Calls.antt =====
-- The calls that the machine passes on to one of its parts (emulator/hd6301_thing.h and .cc). The
-- lock around them is left out, and so is the drawing of the display, which is SDL's. Both keyboards
-- are there; the type of the keyboard selects one.
use hd6301_thing.Common.{ℕ, List, Option}
use hd6301_thing.Part.{Part}
use hd6301_thing.Memory.{AddressSpace}
use hd6301_thing.Storage.{Storage, load}
use hd6301_thing.Hexdump.{ram_hexdump}
use hd6301_thing.Cpu.State.{Cpu}
use hd6301_thing.Cpu.Access
use hd6301_thing.Cpu.Snapshot
use hd6301_thing.Cpu.Snapshot.{CpuState}
use hd6301_thing.Device.Keyboard
use hd6301_thing.Device.Keyboard.{Keyboard, KeyEvent}
use hd6301_thing.Device.Glue
use hd6301_thing.Device.Glue.{Glue}
use hd6301_thing.Device.SdCard.{SdCard, set_image}

pub data KeyboardType : Type 0 where
  keyboard_6301 keyboard_65c22 : KeyboardType

-- The parts that take calls, in a world W; the processor is wired to a world X.
pub record Parts (W X V : Type 0) : Type 0 where
  pub cpu : Part W (Cpu X)
  pub rom : Part W Storage
  pub ram : Part W Storage
  pub sd_card : Part W SdCard
  pub keyboard : Part W (Keyboard V)
  pub glue : Part W Glue

module _ {W X V : Type 0} (p : Parts W X V) where
  unfoldable pub load_rom : ℕ → List ℕ → W → W
  unfolding load
  load_rom address bytes w = p.rom.put (load address bytes (p.rom.view w)) w

  unfoldable pub load_sd_image : List ℕ → W → W
  unfolding set_image
  load_sd_image image w = p.sd_card.put (set_image image (p.sd_card.view w)) w

  unfoldable pub handle_keyboard_event :
      (ℕ → Option (List ℕ × List ℕ)) → KeyboardType → KeyEvent → W → W
  unfolding Keyboard.handle_keyboard_event Glue.handle_keyboard_event
  handle_keyboard_event keymap keyboard_6301 event w =
      p.keyboard.put (Keyboard.handle_keyboard_event keymap event (p.keyboard.view w)) w
  handle_keyboard_event keymap keyboard_65c22 event w =
      p.glue.put (Glue.handle_keyboard_event keymap event (p.glue.view w)) w

  unfoldable pub get_cpu_state : W → CpuState
  unfolding Snapshot.get_state
  get_cpu_state w = Snapshot.get_state (p.cpu.view w)

  unfoldable pub set_breakpoint : ℕ → W → W
  unfolding Snapshot.set_breakpoint
  set_breakpoint address w = p.cpu.put (Snapshot.set_breakpoint address (p.cpu.view w)) w

  unfoldable pub clear_breakpoint : W → W
  unfolding Snapshot.clear_breakpoint
  clear_breakpoint w = p.cpu.put (Snapshot.clear_breakpoint (p.cpu.view w)) w

  unfoldable pub reset : AddressSpace X → W → W
  unfolding Access.reset
  reset memory w = p.cpu.put (Access.reset memory (p.cpu.view w)) w

  unfoldable pub get_ram_hexdump : (ℕ → ℕ → List ℕ) → W → Option (List ℕ)
  unfolding ram_hexdump
  get_ram_hexdump hex w = ram_hexdump hex (p.ram.view w)
