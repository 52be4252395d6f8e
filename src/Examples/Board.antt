-- ===== src/Examples/Board.antt =====
-- The memory map of the machine in a world that is made of its parts.
use hd6301_thing.Common.{ℕ, ◌≡◌, refl, [], ◌∷◌, some, length-replicate}
use hd6301_thing.Storage.{Storage, create}
use hd6301_thing.Device.Interrupt.{Interrupt}
use hd6301_thing.Device.Port.{IoPort}
use hd6301_thing.Device.Serial.{Serial}
use hd6301_thing.Device.Timer.{Timer}
use hd6301_thing.Device.Uart.{Uart}
use hd6301_thing.Device.Via.{Via}
use hd6301_thing.Screen.{Display}
use hd6301_thing.Sound.{SoundOpl3}
use hd6301_thing.Machine.Map.{Devices, create_map}
use hd6301_thing.Machine.Regions.{bounds, internal_registers, create_map_lem}

abbrev Wired : Type 0
Wired = Unit {0}

record World : Type 0 where
  rom : Storage
  ram : Storage
  timer : Timer × Interrupt
  serial : Serial × Interrupt
  port1 : IoPort Wired × Wired
  port2 : IoPort Wired × Wired
  uart : Uart × Interrupt
  via : Via Wired
  graphics : Display
  sound : SoundOpl3 Wired

abbrev board : Devices World Wired Wired
board = record {
  rom = record {
    view = λ w. w.rom;
    put = λ a w. record w { rom = a };
    view-put = λ a w. refl;
    put-view = λ w. refl;
    put-put = λ a b w. refl;
  };
  ram = record {
    view = λ w. w.ram;
    put = λ a w. record w { ram = a };
    view-put = λ a w. refl;
    put-view = λ w. refl;
    put-put = λ a b w. refl;
  };
  timer = record {
    view = λ w. w.timer;
    put = λ a w. record w { timer = a };
    view-put = λ a w. refl;
    put-view = λ w. refl;
    put-put = λ a b w. refl;
  };
  serial = record {
    view = λ w. w.serial;
    put = λ a w. record w { serial = a };
    view-put = λ a w. refl;
    put-view = λ w. refl;
    put-put = λ a b w. refl;
  };
  port1 = record {
    view = λ w. w.port1;
    put = λ a w. record w { port1 = a };
    view-put = λ a w. refl;
    put-view = λ w. refl;
    put-put = λ a b w. refl;
  };
  port2 = record {
    view = λ w. w.port2;
    put = λ a w. record w { port2 = a };
    view-put = λ a w. refl;
    put-view = λ w. refl;
    put-put = λ a b w. refl;
  };
  uart = record {
    view = λ w. w.uart;
    put = λ a w. record w { uart = a };
    view-put = λ a w. refl;
    put-view = λ w. refl;
    put-put = λ a b w. refl;
  };
  via = record {
    view = λ w. w.via;
    put = λ a w. record w { via = a };
    view-put = λ a w. refl;
    put-view = λ w. refl;
    put-put = λ a b w. refl;
  };
  graphics = record {
    view = λ w. w.graphics;
    put = λ a w. record w { graphics = a };
    view-put = λ a w. refl;
    put-view = λ w. refl;
    put-put = λ a b w. refl;
  };
  sound = record {
    view = λ w. w.sound;
    put = λ a w. record w { sound = a };
    view-put = λ a w. refl;
    put-view = λ w. refl;
    put-put = λ a b w. refl;
  };
  write_reg_buffered = λ register value chip. chip;
}

create_map_lem_example :
    bounds (create_map board (create 0x8000 0x8000 0) (create 0x20 0x7ee0 0))
    ≡ some (
      (0x8000, 0xffff)
          ∷ (0x20, 0x7eff)
          ∷ internal_registers ((0x7f80, 0x7f80) ∷ (0x7f40, 0x7f4f) ∷ (0x7f20, 0x7f2f) ∷ []),
      (0x20, 0x7eff)
          ∷ (0x7fc0, 0x7fff)
          ∷ internal_registers ((0x7f80, 0x7f83) ∷ (0x7f40, 0x7f4f) ∷ (0x7f20, 0x7f2f) ∷ []),
    )
unfolding create
create_map_lem_example =
    create_map_lem board (create 0x8000 0x8000 0) (create 0x20 0x7ee0 0) refl
      (length-replicate {A = ℕ} 0x8000 0) refl (length-replicate {A = ℕ} 0x7ee0 0)
