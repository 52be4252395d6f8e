-- ===== src/Memory.antt =====
-- emulator/address_space.h and .cc: the address space of the CPU. The registered callbacks
-- capture `this` of a device; here they act on a world `W` that holds the states of the devices.
pub mod Routing
pub mod Region
use hd6301_thing.Common.{
  ℕ, ◌+◌, ◌/◌, ◌%◌, ◌*◌, ◌^◌, bit_or, Bool, true, false, ◌&&◌, Option, none, some, List, [], ◌∷◌,
  ◌++◌, leb, ltb, if◌then◌else◌, u8, u16, ◌<<<◌, ◌>>>◌,
}

module _ (W : Type 0) where
  pub record ReadAddressRange : Type 0 where
    pub start : ℕ
    pub end : ℕ
    pub callback : ℕ → W → ℕ × W

  pub record WriteAddressRange : Type 0 where
    pub start : ℕ
    pub end : ℕ
    pub callback : ℕ → ℕ → W → W

  pub record AddressSpace : Type 0 where
    pub read_ranges : List ReadAddressRange
    pub write_ranges : List WriteAddressRange

module _ {W : Type 0} where
  -- The test of the registration loops: some registered range meets [start, end].
  unfoldable pub reads_overlap : ℕ → ℕ → List (ReadAddressRange W) → Bool
  reads_overlap start end [] = false
  reads_overlap start end (r ∷ rs) =
      if leb r.start end && leb start r.end then true else reads_overlap start end rs

  unfoldable pub writes_overlap : ℕ → ℕ → List (WriteAddressRange W) → Bool
  writes_overlap start end [] = false
  writes_overlap start end (r ∷ rs) =
      if leb r.start end && leb start r.end then true else writes_overlap start end rs

  -- `none` is InvalidArgumentError; the ranges are then unchanged.
  unfoldable pub register_read : AddressSpace W → ReadAddressRange W → Option (AddressSpace W)
  register_read m range =
      if reads_overlap range.start range.end m.read_ranges
      then none
      else some (record m { read_ranges = m.read_ranges ++ range ∷ [] })

  unfoldable pub register_write : AddressSpace W → WriteAddressRange W → Option (AddressSpace W)
  register_write m range =
      if writes_overlap range.start range.end m.write_ranges
      then none
      else some (record m { write_ranges = m.write_ranges ++ range ∷ [] })

  -- An address with no callback is logged and reads as 0.
  unfoldable pub get_in : List (ReadAddressRange W) → ℕ → W → ℕ × W
  get_in [] address w = (0, w)
  get_in (r ∷ rs) address w =
      if leb r.start address && leb address r.end then r.callback address w else get_in rs address w

  -- An address with no callback is logged, and the write is lost.
  unfoldable pub set_in : List (WriteAddressRange W) → ℕ → ℕ → W → W
  set_in [] address value w = w
  set_in (r ∷ rs) address value w =
      if leb r.start address && leb address r.end
      then r.callback address value w
      else set_in rs address value w

  unfoldable pub get : AddressSpace W → ℕ → W → ℕ × W
  get m address w = get_in m.read_ranges address w

  unfoldable pub set : AddressSpace W → ℕ → ℕ → W → W
  set m address value w = set_in m.write_ranges address value w

  -- The high byte is read first.
  unfoldable pub get16 : AddressSpace W → ℕ → W → ℕ × W
  get16 m address w =
      if ltb 0xfffe address
      then (0, w)
      else (let (high, w1) = get m address w in
          let (low, w2) = get m (u16 (address + 1)) w1 in (bit_or (high <<< 8) low, w2))

  unfoldable pub set16 : AddressSpace W → ℕ → ℕ → W → W
  set16 m address value w =
      if ltb 0xfffe address
      then w
      else set m (u16 (address + 1)) (u8 value) (set m address (u8 (value >>> 8)) w)
