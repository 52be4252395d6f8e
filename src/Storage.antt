-- ===== src/Storage.antt =====
-- emulator/ram.h, ram.cc, rom.h and rom.cc: memory that is mapped into the address space.
pub mod Laws
use hd6301_thing.Common.{
  ℕ, zero, suc, ◌+◌, ◌-◌, ◌%◌, Option, none, some, List, [], ◌∷◌, length, get_or, set, replicate,
  u16, ltb, if◌then◌else◌, ◌&&◌,
}
use hd6301_thing.Part.{Part}
use hd6301_thing.Memory
use hd6301_thing.Memory.{AddressSpace, ReadAddressRange, WriteAddressRange}

-- The state of a `Ram` and of a `Rom`.
pub record Storage : Type 0 where
  pub base_address : ℕ
  pub bytes : List ℕ

unfoldable pub create : ℕ → ℕ → ℕ → Storage
create base size fill_byte = record { base_address = base; bytes = replicate size fill_byte }

-- The bodies of the callbacks.
unfoldable pub read_byte : ℕ → Storage → ℕ
read_byte address s = get_or s.bytes (address - s.base_address) 0

unfoldable pub write_byte : ℕ → ℕ → Storage → Storage
write_byte address value s = record s { bytes = set s.bytes (address - s.base_address) value }

-- The last address, computed in `size_t` and passed as a `uint16_t`.
unfoldable pub last_address : Storage → ℕ
last_address s = u16 (s.base_address + length s.bytes - 1)

module _ {W : Type 0} (part : Part W Storage) where
  unfoldable pub read_range : Storage → ReadAddressRange W
  unfolding last_address read_byte
  read_range s = record {
    start = s.base_address;
    end = last_address s;
    callback = λ address w. (read_byte address (part.view w), w);
  }

  unfoldable pub write_range : Storage → WriteAddressRange W
  unfolding last_address write_byte
  write_range s = record {
    start = s.base_address;
    end = last_address s;
    callback = λ address value w. part.put (write_byte address value (part.view w)) w;
  }

  -- `Ram::initialize`: both directions; the first failure is returned.
  unfoldable pub initialize_ram : Storage → AddressSpace W → Option (AddressSpace W)
  unfolding read_range write_range
  initialize_ram s m = elim (Memory.register_read m (read_range s)) [
    | none ↦ none
    | some m' ↦ Memory.register_write m' (write_range s)
  ]

  -- `Rom::initialize`: reads only.
  unfoldable pub initialize_rom : Storage → AddressSpace W → Option (AddressSpace W)
  unfolding read_range
  initialize_rom s m = Memory.register_read m (read_range s)

-- `Rom::load`: the loop at index i, with `left` bytes of the span left. Bytes past the end of the
-- ROM are ignored.
unfoldable pub load_from : ℕ → List ℕ → List ℕ → List ℕ
load_from i [] bytes = bytes
load_from i (d ∷ rest) bytes =
    let next = load_from (suc i) rest (set bytes i d) in
    if ltb i (length bytes) then next else bytes

unfoldable pub load : ℕ → List ℕ → Storage → Storage
unfolding load_from
load address values s = record s { bytes = load_from address values s.bytes }
