-- ===== src/Device/Keyboard.antt =====
-- emulator/ps2_keyboard_6301.h and .cc: the keyboard at the ports of the processor. The ports, the
-- interrupt line and what is wired to the ports are kept with it. The table of key codes, whose
-- keys are constants of SDL, is a parameter: for a code, the bytes of a press and of a release.
pub mod Queue
use hd6301_thing.Common.{
  ℕ, zero, suc, ◌+◌, Bool, true, false, ◌==◌, ◌&&◌, not, bit_and, if◌then◌else◌, List, [], ◌∷◌,
  ◌++◌, null, Option, none, some,
}
use hd6301_thing.Device.Interrupt.{Interrupt, set_interrupt, clear_interrupt}
use hd6301_thing.Device.Port.{IoPort, provide_inputs}

pub record Keyboard (V : Type 0) : Type 0 where
  pub queue : List ℕ
  pub interrupt_clear : ℕ
  pub interrupt_id : ℕ
  pub irq : Interrupt
  pub data_port : IoPort V
  pub irq_status_port : IoPort V
  pub wired : V

abbrev pub irq_clear_mask : ℕ
irq_clear_mask = 1

abbrev pub irq_status_mask : ℕ
irq_status_mask = 2

-- The type of an SDL_KeyboardEvent, and its code.
pub data KeyEvent : Type 0 where
  key_down : ℕ → KeyEvent
  key_up : ℕ → KeyEvent
  other_event : ℕ → KeyEvent

-- The bytes of an event.
abbrev pub down_bytes : Option (List ℕ × List ℕ) → List ℕ
down_bytes none = []
down_bytes (some (down, up)) = down

abbrev pub up_bytes : Option (List ℕ × List ℕ) → List ℕ
up_bytes none = []
up_bytes (some (down, up)) = up

unfoldable pub event_bytes : (ℕ → Option (List ℕ × List ℕ)) → KeyEvent → List ℕ
event_bytes keymap (key_down code) = down_bytes (keymap code)
event_bytes keymap (key_up code) = up_bytes (keymap code)
event_bytes keymap (other_event code) = []

module _ {V : Type 0} where
  -- A byte is put on the data port, the status pin, which is active low, pulled, and the interrupt
  -- set.
  unfoldable pub offer : ℕ → Keyboard V → Keyboard V
  unfolding provide_inputs set_interrupt
  offer front k =
      let (data_port', v1) = provide_inputs front 0xff (k.data_port, k.wired) in
      let (status_port', v2) = provide_inputs 0 irq_status_mask (k.irq_status_port, v1) in
      let (id, line) = set_interrupt k.irq in
      record k {
        data_port = data_port';
        irq_status_port = status_port';
        wired = v2;
        interrupt_id = id;
        irq = line;
      }

  unfoldable pub clear_keyboard_interrupt : Keyboard V → Keyboard V
  unfolding clear_interrupt
  clear_keyboard_interrupt k =
      if k.interrupt_id == 0
      then k
      else record k { interrupt_id = 0; irq = clear_interrupt k.interrupt_id k.irq }

  unfoldable pub release_status : Keyboard V → Keyboard V
  unfolding provide_inputs
  release_status k =
      let (status_port', v) =
        provide_inputs irq_status_mask irq_status_mask (k.irq_status_port, k.wired) in
      record k { irq_status_port = status_port'; wired = v }

  -- The byte that was read is dropped, and the next one offered.
  unfoldable pub advance : List ℕ → Keyboard V → Keyboard V
  unfolding offer
  advance [] k = k
  advance (read ∷ []) k = record k { queue = [] }
  advance (read ∷ next ∷ rest) k = offer next (record k { queue = next ∷ rest })

  -- The callback for the outputs of the status port.
  unfoldable pub status_changed : ℕ → Keyboard V → Keyboard V
  unfolding clear_keyboard_interrupt release_status advance
  status_changed value k =
      let level = bit_and value irq_clear_mask in
      let k1 =
        if level == irq_clear_mask && k.interrupt_clear == 0
        then (let k2 = release_status (clear_keyboard_interrupt k) in advance k2.queue k2)
        else k in
      record k1 { interrupt_clear = level }

  -- Bytes for the queue; if no interrupt is pending, its front is offered.
  unfoldable pub offer_front : List ℕ → Keyboard V → Keyboard V
  unfolding offer
  offer_front [] k = k
  offer_front (front ∷ rest) k = offer front k

  unfoldable pub enqueue : List ℕ → Keyboard V → Keyboard V
  unfolding offer_front
  enqueue bytes k =
      let k1 = record k { queue = k.queue ++ bytes } in
      if null bytes then k else (if k1.interrupt_id == 0 then offer_front k1.queue k1 else k1)

  unfoldable pub handle_keyboard_event :
      (ℕ → Option (List ℕ × List ℕ)) → KeyEvent → Keyboard V → Keyboard V
  unfolding event_bytes enqueue
  handle_keyboard_event keymap event k = enqueue (event_bytes keymap event) k
