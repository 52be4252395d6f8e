-- ===== src/Examples/Processor.antt =====
-- The theorems on the processor, the address space and the memories in the flat world.
use hd6301_thing.Common.{◌++◌, ◌≡◌, ◌↔◌, refl, arith, some, none, false, [], ◌∷◌}
use hd6301_thing.Memory.{
  AddressSpace, ReadAddressRange, WriteAddressRange, register_read, register_write, get, get16,
  get_in, set, reads_overlap, writes_overlap,
}
use hd6301_thing.Memory.Routing.{
  Inside, Outside, register_read-routes, register_write-routes, register_read-none_iff,
  SharesAddress,
}
use hd6301_thing.Cpu.State.{Cpu}
use hd6301_thing.Cpu.Access.{rti, enter_interrupt}
use hd6301_thing.Cpu.Interrupts.{rti-enter_interrupt, stacked}
use hd6301_thing.Cpu.Run.{TickResult, tick}
use hd6301_thing.Cpu.Run.Cycles.{tick-ends, Ticked}
use hd6301_thing.Examples.Flat.{FlatMemory, flat_space, flat_board, placed, cpu_at}
use hd6301_thing.Examples.FlatLaws.{AnyFlat, flat-IsRam}

abbrev start : Cpu FlatMemory
start = cpu_at 256 (placed 256 (134 ∷ 200 ∷ 139 ∷ 100 ∷ 54 ∷ 51 ∷ []))

rti-enter_interrupt_example :
    rti flat_space (enter_interrupt flat_space 0xfff8 start)
    ≡ record start { world = stacked flat_space start }
unfolding get16 get get_in
rti-enter_interrupt_example =
    rti-enter_interrupt flat_space AnyFlat 0 65535 flat-IsRam (omega arith) 0xfff8 start
      (omega arith) (omega arith) (omega arith) (omega arith) (omega arith) (omega arith)
      (omega arith) tt (λ w. refl)

tick-ends_example :
    (r : TickResult FlatMemory) × (tick flat_board 18 false start ≡ some r)
    × Ticked flat_board 18 false r
tick-ends_example = tick-ends flat_board 18 false start

abbrev half_space : AddressSpace FlatMemory
half_space = record {
  read_ranges = record { start = 0; end = 100; callback = λ p w. (w p, w) } ∷ [];
  write_ranges = [];
}

abbrev new_read : ReadAddressRange FlatMemory
new_read = record { start = 101; end = 200; callback = λ p w. (7, w) }

abbrev new_write : WriteAddressRange FlatMemory
new_write = record { start = 101; end = 200; callback = λ p v w. w }

abbrev clashing : ReadAddressRange FlatMemory
clashing = record { start = 100; end = 200; callback = λ p w. (7, w) }

abbrev with_read : AddressSpace FlatMemory
with_read = record half_space { read_ranges = half_space.read_ranges ++ new_read ∷ [] }

abbrev with_write : AddressSpace FlatMemory
with_write = record half_space { write_ranges = half_space.write_ranges ++ new_write ∷ [] }

register_read-routes_example :
    (Inside 101 200 150 → get with_read 150 (placed 0 []) ≡ (7, placed 0 []))
    × (Outside 101 200 150 → get with_read 150 (placed 0 []) ≡ get half_space 150 (placed 0 []))
unfolding register_read reads_overlap
register_read-routes_example =
    register_read-routes half_space with_read new_read 150 (placed 0 []) refl

register_write-routes_example :
    (Inside 101 200 150 → set with_write 150 1 (placed 0 []) ≡ placed 0 [])
    × (Outside 101 200 150
        → set with_write 150 1 (placed 0 []) ≡ set half_space 150 1 (placed 0 []))
unfolding register_write writes_overlap
register_write-routes_example =
    register_write-routes half_space with_write new_write 150 1 (placed 0 []) refl

register_read-none_iff_example :
    (register_read half_space clashing ≡ none) ↔ SharesAddress 100 200 half_space.read_ranges
register_read-none_iff_example =
    register_read-none_iff half_space clashing (omega arith) (omega arith, tt)
