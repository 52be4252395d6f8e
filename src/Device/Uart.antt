-- ===== src/Device/Uart.antt =====
-- emulator/tl16c2550.h and .cc: the UART. The interrupt line that it is given is passed along with
-- it; `sent` are the bytes that were written to the terminal, and `receive` is what the read thread
-- does with a byte from it.
pub mod Queue
use hd6301_thing.Common.{
  ℕ, zero, suc, ◌+◌, ◌-◌, Bool, true, false, ◌==◌, nz, bit_and, bit_or, if◌then◌else◌, List, [],
  ◌∷◌, ◌++◌, null, switch, u16, Option, none, some,
}
use hd6301_thing.Device.Interrupt.{Interrupt, set_interrupt, clear_interrupt}
use hd6301_thing.Memory
use hd6301_thing.Memory.{AddressSpace, ReadAddressRange, WriteAddressRange}
use hd6301_thing.Part.{Part}

pub record Uart : Type 0 where
  pub base_address : ℕ
  pub receive_data_available_irq_id : ℕ
  pub interrupt_enable_register : ℕ
  pub interrupt_ident_register : ℕ
  pub fifo_control_register : ℕ
  pub line_control_register : ℕ
  pub modem_control_register : ℕ
  pub line_status_register : ℕ
  pub modem_status_register : ℕ
  pub scratch_register : ℕ
  pub rx_fifo : List ℕ
  pub sent : List ℕ

abbrev pub ier_enable_received_interrupt : ℕ
ier_enable_received_interrupt = 0b00000001

abbrev pub iir_receive_interrupt : ℕ
iir_receive_interrupt = 0x04

abbrev pub lsr_data_ready : ℕ
lsr_data_ready = 0b00000001

-- The UART at construction.
unfoldable pub uart_at : ℕ → Uart
uart_at base_address = record {
  base_address = base_address;
  receive_data_available_irq_id = 0;
  interrupt_enable_register = 0;
  interrupt_ident_register = 1;
  fifo_control_register = 0;
  line_control_register = 0;
  modem_control_register = 0;
  line_status_register = 0b01100000;
  modem_status_register = 0;
  scratch_register = 0;
  rx_fifo = [];
  sent = [];
}

unfoldable pub clear_receive_interrupt : Uart × Interrupt → Uart × Interrupt
unfolding clear_interrupt
clear_receive_interrupt (u, line) = if u.receive_data_available_irq_id == 0 then (u, line) else (
  record u { receive_data_available_irq_id = 0 },
  clear_interrupt u.receive_data_available_irq_id line,
)

-- The data of a read at offset 0, from the queue.
unfoldable pub pop_received : List ℕ → Uart → ℕ × Uart
pop_received [] u = (0, u)
pop_received (front ∷ rest) u = (
  front,
  record u {
    rx_fifo = rest;
    line_status_register =
        if null rest then bit_and u.line_status_register 0b11111110 else u.line_status_register;
  },
)

unfoldable pub read_data : Uart × Interrupt → ℕ × Uart × Interrupt
unfolding clear_receive_interrupt pop_received
read_data s =
    let (u1, line1) = clear_receive_interrupt s in
    let (value, u2) = pop_received u1.rx_fifo u1 in (value, u2, line1)

unfoldable pub register_offset : ℕ → Uart → ℕ
register_offset address u = u16 (address + 65536 - u.base_address)

-- The registers that a read leaves alone; another offset is logged and reads as 0.
unfoldable pub register_value : ℕ → Uart → ℕ
register_value offset u =
    switch offset
      ((1, u.interrupt_ident_register)
        ∷ (2, u.fifo_control_register)
        ∷ (3, u.line_control_register)
        ∷ (4, u.modem_control_register)
        ∷ (5, u.line_status_register)
        ∷ (6, u.modem_status_register)
        ∷ (7, u.scratch_register)
        ∷ [])
      0

unfoldable pub read_register : ℕ → Uart × Interrupt → ℕ × Uart × Interrupt
unfolding register_offset read_data register_value
read_register address (u, line) =
    let offset = register_offset address u in
    if offset == 0 then read_data (u, line) else (register_value offset u, u, line)

unfoldable pub set_interrupt_enable : ℕ → Uart × Interrupt → Uart × Interrupt
unfolding clear_receive_interrupt
set_interrupt_enable value (u, line) =
    let u1 = record u { interrupt_enable_register = value } in
    if bit_and value 0b00000001 == 0 then clear_receive_interrupt (u1, line) else (u1, line)

-- The other registers are not implemented: a write is logged.
unfoldable pub write_register : ℕ → ℕ → Uart × Interrupt → Uart × Interrupt
unfolding register_offset set_interrupt_enable
write_register address value (u, line) =
    switch (register_offset address u)
      ((0, (record u { sent = u.sent ++ value ∷ [] }, line))
        ∷ (1, set_interrupt_enable value (u, line))
        ∷ (7, (record u { scratch_register = value }, line))
        ∷ [])
      (u, line)

-- A byte from the terminal.
unfoldable pub receive_byte : ℕ → Uart × Interrupt → Uart × Interrupt
unfolding set_interrupt
receive_byte byte (u, line) =
    let u1 = record u {
      rx_fifo = u.rx_fifo ++ byte ∷ [];
      line_status_register = bit_or u.line_status_register lsr_data_ready;
    } in
    if nz (bit_and u.interrupt_enable_register ier_enable_received_interrupt)
    then (let u2 = record u1 { interrupt_ident_register = iir_receive_interrupt } in
        if u2.receive_data_available_irq_id == 0
        then (let (id, line') = set_interrupt line in
            (record u2 { receive_data_available_irq_id = id }, line'))
        else (u2, line))
    else (u1, line)

module _ {W : Type 0} (part : Part W (Uart × Interrupt)) where
  -- `initialize` up to the opening of the terminal: writes are registered first.
  unfoldable pub initialize_uart : ℕ → AddressSpace W → Option (AddressSpace W)
  unfolding read_register write_register
  initialize_uart base m =
      let last = u16 (base + 15) in
      elim (Memory.register_write m (record {
        start = base;
        end = last;
        callback = λ address value w. part.put (write_register address value (part.view w)) w;
      })) [
        | none ↦ none
        | some m' ↦ Memory.register_read m' (record {
          start = base;
          end = last;
          callback = λ address w.
              let (value, u, line) = read_register address (part.view w) in
              (value, part.put (u, line) w);
        })
      ]
