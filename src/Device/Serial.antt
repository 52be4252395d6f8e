-- ===== src/Device/Serial.antt =====
-- emulator/hd6301_serial.h and .cc: the serial port of the processor. The interrupt line that it is
-- given is passed along with it; `sent` are the bytes that were written to the terminal, and
-- `receive` is what the read thread does with a byte from it.
pub mod Events
pub mod Transmit
pub mod Receive
use hd6301_thing.Common.{
  ℕ, zero, suc, ◌+◌, ◌*◌, ◌%◌, ◌≡◌, ◌∙◌, refl, ap, arith, Bool, true, false, ◌==◌, ltb, nz, bit_and,
  bit_or, if◌then◌else◌, List, [], ◌∷◌, ◌++◌, null, not, ◌&&◌, switch, u8, u16, ◌-◌, Option, none,
  some,
}
use hd6301_thing.Device.Interrupt.{Interrupt, set_interrupt, clear_interrupt}
use hd6301_thing.Memory
use hd6301_thing.Memory.{AddressSpace, ReadAddressRange, WriteAddressRange}
use hd6301_thing.Part.{Part}

pub record Serial : Type 0 where
  pub base_address : ℕ
  pub transmit_interrupt_id : ℕ
  pub receive_interrupt_id : ℕ
  pub trcsr : ℕ
  pub rmcr : ℕ
  pub receive_data_register : ℕ
  pub transmit_register_empty_countdown : ℕ
  pub receive_register_full_countdown : ℕ
  pub rx_fifo_empty : Bool
  pub rx_fifo : List ℕ
  pub sent : List ℕ

abbrev pub transmit_enable : ℕ
transmit_enable = 0b00000010

abbrev pub transmit_interrupt_enable : ℕ
transmit_interrupt_enable = 0b00000100

abbrev pub receive_enable : ℕ
receive_enable = 0b00001000

abbrev pub receive_interrupt_enable : ℕ
receive_interrupt_enable = 0b00010000

abbrev pub transmit_data_register_empty : ℕ
transmit_data_register_empty = 0b00100000

abbrev pub receive_data_register_full : ℕ
receive_data_register_full = 0b10000000

-- The port at construction.
unfoldable pub serial_at : ℕ → Serial
serial_at base_address = record {
  base_address = base_address;
  transmit_interrupt_id = 0;
  receive_interrupt_id = 0;
  trcsr = 0b00100000;
  rmcr = 0;
  receive_data_register = 0;
  transmit_register_empty_countdown = 0;
  receive_register_full_countdown = 0;
  rx_fifo_empty = false;
  rx_fifo = [];
  sent = [];
}

unfoldable pub ticks_per_bit : ℕ → ℕ
ticks_per_bit rmcr = switch (bit_and rmcr 0x03) ((0, 16) ∷ (1, 128) ∷ (2, 1024) ∷ (3, 4096) ∷ []) 0

-- Ten bits, in a countdown of eight bits.
unfoldable pub byte_countdown : ℕ → ℕ
unfolding ticks_per_bit
byte_countdown rmcr = u8 (ticks_per_bit rmcr * 10)

unfoldable pub transmit_complete : Serial × Interrupt → Serial × Interrupt
unfolding set_interrupt
transmit_complete (s, line) =
    let s1 = record s { trcsr = bit_or s.trcsr transmit_data_register_empty } in
    if nz (bit_and s1.trcsr transmit_interrupt_enable)
    then (let (id, line') = set_interrupt line in (record s1 { transmit_interrupt_id = id }, line'))
    else (s1, line)

unfoldable pub transmit_tick : Serial × Interrupt → Serial × Interrupt
unfolding transmit_complete
transmit_tick (s, line) =
    if ltb 0 s.transmit_register_empty_countdown
    then (let s1 = record s {
      transmit_register_empty_countdown = s.transmit_register_empty_countdown - 1;
    } in
        if s1.transmit_register_empty_countdown == 0
        then transmit_complete (s1, line)
        else (s1, line))
    else (s, line)

unfoldable pub receive_interrupt : Serial × Interrupt → Serial × Interrupt
unfolding set_interrupt
receive_interrupt (s, line) =
    if nz (bit_and s.trcsr receive_interrupt_enable) && s.receive_interrupt_id == 0
    then (let (id, line') = set_interrupt line in (record s { receive_interrupt_id = id }, line'))
    else (s, line)

-- The front of the queue moves to the register.
unfoldable pub deliver : List ℕ → Serial × Interrupt → Serial × Interrupt
unfolding receive_interrupt byte_countdown
deliver [] (s, line) = (s, line)
deliver (front ∷ rest) (s, line) =
    let (s1, line1) = receive_interrupt (
      record s {
        receive_data_register = front;
        rx_fifo = rest;
        trcsr = bit_or s.trcsr receive_data_register_full;
      },
      line,
    ) in
    (record s1 { receive_register_full_countdown = byte_countdown s1.rmcr }, line1)

unfoldable pub note_empty : Serial → Serial
note_empty s = if null s.rx_fifo then record s { rx_fifo_empty = true } else s

unfoldable pub receive_tick : Serial × Interrupt → Serial × Interrupt
unfolding deliver note_empty
receive_tick (s, line) =
    let s1 =
      if ltb 0 s.receive_register_full_countdown
      then record s { receive_register_full_countdown = s.receive_register_full_countdown - 1 }
      else s in
    if s1.receive_register_full_countdown == 0 && not s1.rx_fifo_empty
    then (let (s2, line2) = deliver s1.rx_fifo (s1, line) in (note_empty s2, line2))
    else (s1, line)

unfoldable pub tick : Serial × Interrupt → Serial × Interrupt
unfolding transmit_tick receive_tick
tick s = receive_tick (transmit_tick s)

-- A byte from the terminal.
unfoldable pub receive : ℕ → Serial → Serial
receive byte s = record s { rx_fifo = s.rx_fifo ++ byte ∷ []; rx_fifo_empty = false }

-- Enabling the receiver empties the queue.
unfoldable pub write_control : ℕ → Serial → Serial
write_control value s =
    let receive_enabled = nz (bit_and s.trcsr receive_enable) in
    let s1 = record s { trcsr = bit_or (bit_and s.trcsr 0b11100000) (bit_and value 0b00011111) } in
    if not receive_enabled && nz (bit_and s1.trcsr receive_enable)
    then record s1 { rx_fifo = []; rx_fifo_empty = true }
    else s1

unfoldable pub acknowledge_transmit : Serial × Interrupt → Serial × Interrupt
unfolding clear_interrupt
acknowledge_transmit (s, line) =
    if nz (bit_and s.trcsr transmit_interrupt_enable) && not (s.transmit_interrupt_id == 0)
    then (record s { transmit_interrupt_id = 0 }, clear_interrupt s.transmit_interrupt_id line)
    else (s, line)

unfoldable pub transmit : ℕ → Serial → Serial
unfolding byte_countdown
transmit value s =
    if nz (bit_and s.trcsr transmit_enable) && nz (bit_and s.trcsr transmit_data_register_empty)
    then record s {
      trcsr = bit_and s.trcsr 0b11011111;
      sent = s.sent ++ value ∷ [];
      transmit_register_empty_countdown = byte_countdown s.rmcr;
    }
    else s

unfoldable pub offset_of : ℕ → Serial → ℕ
offset_of address s = u16 (address + 65536 - s.base_address)

unfoldable pub write : ℕ → ℕ → Serial × Interrupt → Serial × Interrupt
unfolding offset_of write_control acknowledge_transmit transmit
write address value (s, line) =
    switch (offset_of address s)
      ((0, (record s { rmcr = bit_and value 0x0f }, line))
        ∷ (1, (write_control value s, line))
        ∷ (3, (let (s1, line1) = acknowledge_transmit (s, line) in (transmit value s1, line1)))
        ∷ [])
      (s, line)

unfoldable pub acknowledge_receive : Serial × Interrupt → Serial × Interrupt
unfolding clear_interrupt
acknowledge_receive (s, line) =
    if s.receive_interrupt_id == 0
    then (s, line)
    else (record s { receive_interrupt_id = 0 }, clear_interrupt s.receive_interrupt_id line)

unfoldable pub read : ℕ → Serial × Interrupt → ℕ × Serial × Interrupt
unfolding offset_of acknowledge_receive
read address (s, line) =
    switch (offset_of address s)
      ((1, (s.trcsr, s, line))
        ∷ (
          2,
          (let (s1, line1) = acknowledge_receive (s, line) in (s.receive_data_register, s1, line1)),
        )
        ∷ [])
      (0, s, line)

unfoldable pub ticks : ℕ → Serial × Interrupt → Serial × Interrupt
unfolding tick
ticks zero s = s
ticks (suc n) s = ticks n (tick s)

module _ {W : Type 0} (part : Part W (Serial × Interrupt)) where
  -- `initialize` up to the opening of the terminal: writes are registered first.
  unfoldable pub initialize : ℕ → AddressSpace W → Option (AddressSpace W)
  unfolding read write
  initialize base m =
      let last = u16 (base + 3) in
      elim (Memory.register_write m (record {
        start = base;
        end = last;
        callback = λ address value w. part.put (write address value (part.view w)) w;
      })) [
        | none ↦ none
        | some m' ↦ Memory.register_read m' (record {
          start = base;
          end = last;
          callback = λ address w.
              let (value, s, line) = read address (part.view w) in (value, part.put (s, line) w);
        })
      ]
