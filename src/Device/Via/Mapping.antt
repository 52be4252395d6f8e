-- ===== src/Device/Via/Mapping.antt =====
-- `Initialize` of the adapter (emulator/w65c22.cc). Its callback for the pins CA acts on the adapter
-- itself and is not in the list of the port's callbacks: `provide_ca` provides inputs with it.
use hd6301_thing.Common.{ℕ, ◌+◌, bit_or, u16, Option, none, some}
use hd6301_thing.Memory
use hd6301_thing.Memory.{AddressSpace}
use hd6301_thing.Part.{Part}
use hd6301_thing.Device.Port.{provide_inputs, write_data_direction_register}
use hd6301_thing.Device.Via.{Via, read, ca1_transition}
use hd6301_thing.Device.Via.Write.{write}

abbrev pub ca1_mask : ℕ
ca1_mask = 1

abbrev pub ca2_mask : ℕ
ca2_mask = 2

module _ {W : Type 0} where
  unfoldable pub initialize_ca : Via W → Via W
  unfolding write_data_direction_register
  initialize_ca v = record v {
    port_ca = write_data_direction_register (bit_or ca1_mask ca2_mask) v.port_ca;
  }

  -- Inputs at the pins CA, seen by the adapter.
  unfoldable pub provide_ca : ℕ → ℕ → Via W → Via W
  unfolding provide_inputs ca1_transition
  provide_ca value mask v =
      let (port, w) = provide_inputs value mask (v.port_ca, v.world) in
      ca1_transition port.input_register (record v { port_ca = port; world = w })

module _ {W V : Type 0} (part : Part V (Via W)) where
  -- Reads are registered first.
  unfoldable pub map_via : ℕ → AddressSpace V → Option (AddressSpace V)
  unfolding read write
  map_via base m =
      let last = u16 (base + 15) in
      elim (Memory.register_read m (record {
        start = base;
        end = last;
        callback =
            λ address v. let (value, via) = read address (part.view v) in (value, part.put via v);
      })) [
        | none ↦ none
        | some m' ↦ Memory.register_write m' (record {
          start = base;
          end = last;
          callback = λ address value v. part.put (write address value (part.view v)) v;
        })
      ]
