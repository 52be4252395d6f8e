-- ===== src/Examples/Wired.antt =====
-- The theorem on a byte through the glue, at the wires of one SPI bus.
use hd6301_thing.Common.{ℕ, ◌+◌, refl, arith, [], ◌∷◌, Option, some}
use hd6301_thing.Part.{whole}
use hd6301_thing.Device.Port.{IoPort}
use hd6301_thing.Device.Spi
use hd6301_thing.Device.Spi.{Spi, spi_at, clk_data_in}
use hd6301_thing.Device.Spi.Bits.{to_bits}
use hd6301_thing.Device.Spi.Exchange.{IsAnswered}
use hd6301_thing.Device.Glue.{Glue, Ports, glue_at}
use hd6301_thing.Device.Glue.Clock.{exchange_bits, bus, IsShown}
use hd6301_thing.Device.Glue.Exchange.{exchange_bits-to_bits}

abbrev Port : Type 0
Port = IoPort (Unit {0}) × Unit {0}

abbrev Bus : Type 0
Bus = Spi Port × Port

-- The clock port drives the bus, which holds the MISO port.
abbrev Wires : Type 0
Wires = (IoPort Bus × Bus) × Port × Port

abbrev wires : Ports Wires Bus (Unit {0}) (Unit {0}) (Unit {0})
wires = record {
  clk_out = record {
    view = λ w. w.0;
    put = λ a w. (a, w.1, w.2);
    view-put = λ a w. refl;
    put-view = λ w. refl;
    put-put = λ a b w. refl;
  };
  miso = record {
    view = λ w. w.0.1.1;
    put = λ a w. ((w.0.0, (w.0.1.0, a)), w.1, w.2);
    view-put = λ a w. refl;
    put-view = λ w. refl;
    put-put = λ a b w. refl;
  };
  keyboard_irq = record {
    view = λ w. w.1;
    put = λ a w. (w.0, a, w.2);
    view-put = λ a w. refl;
    put-view = λ w. refl;
    put-put = λ a b w. refl;
  };
  parallel_out = record {
    view = λ w. w.2;
    put = λ a w. (w.0, w.1, a);
    view-put = λ a w. refl;
    put-view = λ w. refl;
    put-put = λ a b w. refl;
  };
}

abbrev idle : Port
idle = (
  record {
    output_change_callbacks = [];
    input_change_callbacks = [];
    data_direction = 0;
    output_register = 0;
    input_register = 0;
  },
  tt,
)

-- The card answers each byte with the byte plus one, and has 0xa5 to send.
abbrev card : Option (ℕ → Port → ℕ × Port)
card = some (λ value w. (value + 1, w))

abbrev spi : Spi Port
spi = record (spi_at 1 0 1 0) {
  byte_received_callback = card;
  sub_data_out = 0xa5;
  previous_clock = 1;
}

abbrev start : Wires
start = (
  (
    record {
      output_change_callbacks = clk_data_in whole ∷ [];
      input_change_callbacks = [];
      data_direction = 1;
      output_register = 1;
      input_register = 0;
    },
    (spi, idle),
  ),
  idle,
  idle,
)

-- The glue with the pins of the machine.
abbrev glue : Glue
glue = glue_at 0 2 0

exchange_bits-to_bits_example :
    let s' = exchange_bits wires whole (to_bits 8 0x12) (glue, start) in
    IsAnswered whole spi 0x12
      (Spi.Exchange.present whole spi.miso_mask (to_bits 8 0xa5) idle)
      (bus wires whole s'.1)
    × IsShown wires whole 0xa5 s'
unfolding spi_at glue_at Spi.answer
exchange_bits-to_bits_example =
    exchange_bits-to_bits wires whole card (λ w. refl) (λ t w. refl) (λ value v. refl) 0x12 glue
      start (omega arith) (omega arith)
      (
        refl,
        refl,
        refl,
        (refl, refl, ground arith, ground arith),
        (refl, refl),
        (refl, omega arith),
        refl,
      )
      (refl, refl)
