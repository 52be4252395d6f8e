-- ===== src/Examples/Dumps.antt =====
-- The theorems on hexdump, with hexadecimal digits in lower case, and those on the glue, with nothing
-- wired to its ports.
use hd6301_thing.Common.{
  ℕ, zero, suc, ◌+◌, ◌-◌, ◌/◌, ◌%◌, ◌≡◌, refl, ltb, if◌then◌else◌, List, [], ◌∷◌, ◌++◌, replicate,
  flatten, drop, Option, some,
}
use hd6301_thing.Device.Port.{IoPort}
use hd6301_thing.Device.Keyboard.{key_down, event_bytes}
use hd6301_thing.Device.Glue.{Ports, glue_at, handle_keyboard_event, switch_changed}
use hd6301_thing.Device.Glue.Keys.{Event, ticked, clock_in, switched, run, tick_count, last_taken}
use hd6301_thing.Device.Glue.Shown.{handle_keyboard_event-switch_changed}
use hd6301_thing.Hexdump.{hexdump}
use hd6301_thing.Hexdump.Lines.{row}
use hd6301_thing.Hexdump.Reference.{dump}
use hd6301_thing.Hexdump.Squeeze.{hexdump-dump}
use hd6301_thing.Hexdump.Repeats.{hexdump-replicate}

abbrev digit : ℕ → ℕ
digit n = if ltb n 10 then b'0' + n else b'a' + n - 10

abbrev hex : ℕ → ℕ → List ℕ
hex zero n = []
hex (suc width) n = hex width (n / 16) ++ digit (n % 16) ∷ []

hexdump-dump_example :
    hexdump hex (0x41 ∷ 0 ∷ 0x7f ∷ []) 30 ≡ some (dump hex (0x41 ∷ 0 ∷ 0x7f ∷ []) 30)
hexdump-dump_example = hexdump-dump hex (0x41 ∷ 0 ∷ 0x7f ∷ []) 30

hexdump-replicate_example :
    hexdump hex (flatten (replicate 5 (7 ∷ replicate 15 0))) 32
    ≡ some (row hex 32 0 (7 ∷ replicate 15 0) ++ b'*' ∷ 10 ∷ [])
hexdump-replicate_example = hexdump-replicate hex 7 (replicate 15 0) refl 3 32 refl

-- Four ports with nothing wired to them.
abbrev Port : Type 0
Port = IoPort (Unit {0}) × Unit {0}

abbrev Wires : Type 0
Wires = Port × Port × Port × Port

abbrev wires : Ports Wires (Unit {0}) (Unit {0}) (Unit {0}) (Unit {0})
wires = record {
  clk_out = record {
    view = λ w. w.0;
    put = λ a w. (a, w.1, w.2, w.3);
    view-put = λ a w. refl;
    put-view = λ w. refl;
    put-put = λ a b w. refl;
  };
  miso = record {
    view = λ w. w.1;
    put = λ a w. (w.0, a, w.2, w.3);
    view-put = λ a w. refl;
    put-view = λ w. refl;
    put-put = λ a b w. refl;
  };
  keyboard_irq = record {
    view = λ w. w.2;
    put = λ a w. (w.0, w.1, a, w.3);
    view-put = λ a w. refl;
    put-view = λ w. refl;
    put-put = λ a b w. refl;
  };
  parallel_out = record {
    view = λ w. w.3;
    put = λ a w. (w.0, w.1, w.2, a);
    view-put = λ a w. refl;
    put-view = λ w. refl;
    put-put = λ a b w. refl;
  };
}

abbrev idle_port : Port
idle_port = (
  record {
    output_change_callbacks = [];
    input_change_callbacks = [];
    data_direction = 0;
    output_register = 0;
    input_register = 0;
  },
  tt,
)

abbrev idle_wires : Wires
idle_wires = (idle_port, idle_port, idle_port, idle_port)

-- The key 4 sends one byte when it is pressed, and two when it is released.
abbrev keymap : ℕ → Option (List ℕ × List ℕ)
keymap code = some (0x1c ∷ [], 0xf0 ∷ 0x1c ∷ [])

abbrev events : List Event
events = clock_in 1 ∷ replicate 1001 ticked ++ switched 0 ∷ ticked ∷ []

handle_keyboard_event-switch_changed_example :
    let (g', w') =
      switch_changed wires 4 (
        run wires events (handle_keyboard_event keymap (key_down 4) (glue_at 0 2 0), idle_wires)) in
    let taken = tick_count events / 1001 in
    ((wires.parallel_out.view w').0.input_register ≡ last_taken taken (0x1c ∷ []) 0)
    × (g'.keyboard_data_queue ≡ drop taken (0x1c ∷ []))
unfolding glue_at event_bytes
handle_keyboard_event-switch_changed_example =
    handle_keyboard_event-switch_changed wires events 0x1c [] keymap (key_down 4) 4 (glue_at 0 2 0)
      idle_wires refl refl
