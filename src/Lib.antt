-- ===== src/Lib.antt =====
-- The HD6301 emulator, modelled and verified.
--
-- The repository holds a home-built computer around a HD6301 processor, and an emulator of it. The
-- development is about the emulator's own logic (emulator/, graphics_state/ and disassembler/), and the
-- firmware of its programmer and of its display (pico_programmer/, pico_graphics/).
--
-- The parts, and the files that model them:
--   * Memory: the address space (emulator/address_space.h and .cc, AddressSpace). Devices register
--     callbacks for ranges of addresses; a callback that captures a device is a function on a world
--     W that holds all devices. Memory/Routing has its registration, Memory/Region memory behind it.
--   * Part and Storage: RAM and ROM (emulator/ram.h, ram.cc, rom.h and rom.cc) as parts of a world.
--   * Cpu: the processor (emulator/cpu6301.h and .cc, Cpu6301). Cpu/Alu is the status register and
--     the operations on values and flags; Cpu/State the registers; Cpu/Access memory, stack, rti and
--     interrupt entry; Cpu/Instruction the forms of the `exec` closures and `execute`; Cpu/Table the
--     table of 226 instructions that the constructor fills; Cpu/Run the loop of `tick`.
--   * Device: the interrupt line (emulator/interrupt.h, Interrupt), the timer (emulator/timer.h and
--     .cc, Timer), which is passed the line along with its own state, the pins (emulator/ioport.h and
--     .cc, IOPort) and the W65C22 adapter (emulator/w65c22.h and .cc), which holds its ports, the
--     line and the world that is wired to its pins.
--     Device/Serial is the serial port of the processor (emulator/hd6301_serial.h and .cc), and
--     Device/Uart the TL16C2550 (emulator/tl16c2550.h and .cc), with the bytes of their terminals as
--     events and lists; Device/Keyboard the keyboard (emulator/ps2_keyboard_6301.h and .cc), with
--     the table of key codes as a parameter; Device/Spi the SPI bus (emulator/spi.h and .cc),
--     Device/SdCard the card on it (emulator/sd_card_spi.h and .cc), and Device/Glue the logic between
--     adapter, bus and keyboard (emulator/w65c22_to_spi_glue.h and .cc). Device/Glue/Exchange puts
--     the glue, the bus and a card together, wired as `HD6301Thing::create` wires them.
--   * Machine: the loop that runs the processor in real time (emulator/hd6301_thing.h and .cc), in
--     Machine/Map the memory map that `create` registers, and in Machine/Calls the calls that the
--     machine passes on to one of its parts.
--   * Disassembler: finding the instructions of a program (disassembler/disassembler.h and .cc), with
--     the table of disassembler/instructions6301.h in Disassembler/Table.
--   * Hexdump: emulator/hexdump.h and .cc; Hexdump/Reference says what a dump is, line by line.
--   * Programmer: the firmware that drives the bus from a Raspberry Pi Pico (pico_programmer/). The SDK
--     of the Pico is a parameter; Programmer/Pins has what its documentation says of the pins,
--     and Programmer/Latches the latches and the memory of its board (programmer_board/).
--   * Screen: the frame that the emulator draws the display into (emulator/graphics.h and .cc), and
--     Scanout: the firmware that shows it over DVI (pico_graphics/pico_graphics.cpp). Filling a
--     rectangle is SDL's, encoding a line PicoDVI's, and the font is generated: these are parameters.
--   * Sound: the ports of the sound chip and its samples (emulator/sound_opl3.h and .cc).
--   * Graphics: the text display (graphics_state/, GraphicsState). Graphics/Colors is the colour
--     planes and the flip of the cursor, Graphics/Commands is HandleCommand.
--   * Common: Boolean tests, lists, machine words and bit laws that the others share.
--   * Examples: tests on a flat 64 KB memory, and the theorems at concrete inputs.
--
-- A uint8_t or uint16_t is a native number with `% 256` or `% 65536` written where the code
-- truncates. A C++ method that changes the processor and reads memory passes both as one state
-- (Cpu W). Logging is left out. The operands of `fetch() << 8 | fetch()` are evaluated from left to
-- right. `tick` runs on fuel, one more than the cycles asked for, which is enough since every round
-- of its loop takes a cycle at least; `cycles_to_run` below 0 behaves as 0.
--
-- The interrupt lines, the timer, the serial port and the tick callbacks that the loop of `tick`
-- uses are a parameter of the processor (Board). Cpu/Snapshot is the state that a debugger
-- sees.
--
-- The loop of the disassembler runs on fuel, a round for each unit; the theorem on it names the fuel
-- that is enough. The image of the SD card is the bytes of a file.
--
-- The roll of the display, which is 0 or negative, is kept as its negation; an access outside a
-- buffer, which C++ leaves undefined, reads 0 and writes nothing.
--
-- Not modelled: the windows and the command line of the emulator (emulator/emulator.cc), MIDI, the
-- table of key codes, the calls that start SDL and the SDK of the Pico, the USB descriptors, the ROM
-- and assembly sources, the hardware designs, and the vendored libraries; the pseudo terminals and
-- the threads that read them; the texts that the disassembler prints; and the wiring of the pins.
pub mod Common
pub mod Cpu
pub mod Device
pub mod Disassembler
pub mod Examples
pub mod Graphics
pub mod Hexdump
pub mod Machine
pub mod Memory
pub mod Part
pub mod Programmer
pub mod Scanout
pub mod Screen
pub mod Sound
pub mod Storage
