-- ===== src/Examples/Serials.antt =====
-- The theorems on the serial ports and the pace of the machine at concrete states.
use hd6301_thing.Common.{
  ◌+◌, ◌*◌, ◌≡◌, refl, arith, true, false, nz, bit_and, max, List, [], ◌∷◌, ◌++◌, not, null,
}
use hd6301_thing.Device.Interrupt.{Interrupt}
use hd6301_thing.Device.Interrupt
use hd6301_thing.Device.Serial.{Serial, serial_at, ticks_per_bit, write, ticks}
use hd6301_thing.Device.Serial.Events.{Event, ticked, written, was_read, received, run}
use hd6301_thing.Device.Serial.Transmit.{transmit_lem, transmit-IsStuck}
use hd6301_thing.Device.Serial.Receive.{byte_ticks, receive_lem}
use hd6301_thing.Device.Port.{IoPort}
use hd6301_thing.Device.Keyboard.{Keyboard, enqueue}
use hd6301_thing.Device.Keyboard.Queue.{IsIdle, strobes, enqueue_lem}
use hd6301_thing.Device.Uart.{uart_at}
use hd6301_thing.Device.Uart.Queue
use hd6301_thing.Device.Uart.Queue.{Access, run_accesses, run_accesses_lem}

abbrev line : Interrupt
line = Interrupt.initial

-- The transmitter is on.
abbrev sender : Serial
sender = record (serial_at 0x10) { trcsr = 0x22 }

-- A byte is received and the status read while the byte is sent.
abbrev events : List Event
events = ticked ∷ received 65 ∷ ticked ∷ was_read 0x11 ∷ []

transmit_lem_example :
    let t = (run events (write 0x13 72 (sender, line))).0 in
    (t.sent ≡ 72 ∷ []) × (nz (bit_and t.trcsr 32) ≡ false)
unfolding serial_at ticks_per_bit
transmit_lem_example = transmit_lem 72 events sender line (refl, refl) refl refl

abbrev fast_sender : Serial
fast_sender = record sender { rmcr = 1 }

transmit-IsStuck_example :
    let t = (run (written 0x13 73 ∷ events) (write 0x13 72 (fast_sender, line))).0 in
    (t.sent ≡ 72 ∷ []) × (nz (bit_and t.trcsr 32) ≡ false)
unfolding serial_at ticks_per_bit
transmit-IsStuck_example =
    transmit-IsStuck 72 (written 0x13 73 ∷ events) fast_sender line (refl, refl)
      (λ e. omega (arith, e))

-- Two bytes are waiting.
abbrev receiver : Serial
receiver = record (serial_at 0x10) { trcsr = 0x28; rx_fifo = 65 ∷ 66 ∷ [] }

receive_lem_example :
    let t = (ticks (max 1 0 + 1 * byte_ticks 0) (receiver, line)).0 in
    (t.receive_data_register ≡ 66) × (nz (bit_and t.trcsr 128) ≡ true)
unfolding serial_at
receive_lem_example =
    receive_lem (65 ∷ 66 ∷ []) 1 0 0 (receiver, line) (omega arith) (omega arith)
      (refl, refl, refl, refl)

-- Two bytes arrive, and one is read.
abbrev accesses : List Access
accesses = Queue.received 7 ∷ Queue.received 8 ∷ Queue.was_read 0x7f40 ∷ []

run_accesses_lem_example :
    let (taken, u) = run_accesses accesses [] (uart_at 0x7f40, line) in
    (taken ++ u.rx_fifo ≡ 7 ∷ 8 ∷ [])
    × (nz (bit_and u.line_status_register 1) ≡ not (null u.rx_fifo))
run_accesses_lem_example = run_accesses_lem accesses 0x7f40 line

abbrev free_port : IoPort (Unit {0})
free_port = record {
  output_change_callbacks = [];
  input_change_callbacks = [];
  data_direction = 0;
  output_register = 0;
  input_register = 0;
}

abbrev keyboard : Keyboard (Unit {0})
keyboard = record {
  queue = [];
  interrupt_clear = 0;
  interrupt_id = 0;
  irq = line;
  data_port = free_port;
  irq_status_port = free_port;
  wired = tt;
}

-- A key that is released sends two bytes.
enqueue_lem_example :
    ((strobes 1 (enqueue (0xf0 ∷ 0x1c ∷ []) keyboard)).data_port.input_register ≡ 0x1c)
    × IsIdle (strobes 2 (enqueue (0xf0 ∷ 0x1c ∷ []) keyboard))
unfolding Interrupt.initial Interrupt.is_empty Interrupt.contains
enqueue_lem_example =
    enqueue_lem 1 0xf0 (0x1c ∷ []) keyboard (omega arith) (refl, refl, (refl, refl, ground arith))
