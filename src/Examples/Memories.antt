-- ===== src/Examples/Memories.antt =====
-- The theorem on the RAM at a concrete RAM.
use hd6301_thing.Common.{◌≡◌, refl, arith, [], ◌∷◌}
use hd6301_thing.Part.{whole}
use hd6301_thing.Memory
use hd6301_thing.Memory.{AddressSpace, register_read, register_write, reads_overlap, writes_overlap}
use hd6301_thing.Storage.{Storage, read_range, write_range, initialize_ram}
use hd6301_thing.Storage.Laws.{initialize_ram_lem}

-- Three bytes at 0x100.
abbrev ram : Storage
ram = record { base_address = 0x100; bytes = 1 ∷ 2 ∷ 3 ∷ [] }

abbrev empty_space : AddressSpace Storage
empty_space = record { read_ranges = []; write_ranges = [] }

abbrev ram_space : AddressSpace Storage
ram_space = record {
  read_ranges = read_range whole ram ∷ [];
  write_ranges = write_range whole ram ∷ [];
}

initialize_ram_lem_example :
    ((Memory.get ram_space 0x101 (Memory.set ram_space 0x101 9 ram)).0 ≡ 9)
    × ((Memory.get ram_space 0x102 (Memory.set ram_space 0x101 9 ram)).0
        ≡ (Memory.get ram_space 0x102 ram).0)
unfolding initialize_ram register_read register_write reads_overlap writes_overlap
initialize_ram_lem_example =
    initialize_ram_lem whole ram empty_space ram_space 0x101 0x102 9 ram
      (omega arith, omega arith, refl, refl) refl (omega arith) (omega arith) (omega arith)
      (omega arith) (omega arith)
