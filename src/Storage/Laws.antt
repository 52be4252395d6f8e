-- ===== src/Storage/Laws.antt =====
-- A mapped RAM holds what is written to it (emulator/ram.cc).
use hd6301_thing.Common.{
  ℕ, ◌+◌, ◌-◌, ◌≤◌, ◌<◌, ◌≡◌, ◌≢◌, sym, ap, subst, ◌∙◌, arith, Option-cases, none, some, inl, inr,
  length, get_or-set_self, get_or-set_ne,
}
use hd6301_thing.Part.{Part}
use hd6301_thing.Memory
use hd6301_thing.Memory.{
  AddressSpace, WriteAddressRange, register_read, register_write, writes_overlap,
}
use hd6301_thing.Memory.Routing.{register_read-routes, register_write-routes}
use hd6301_thing.Storage.{
  Storage, read_byte, write_byte, last_address, read_range, write_range, initialize_ram,
}

module _ {W : Type 0} where
  register_write-keeps_reads :
      (m m' : AddressSpace W) (r : WriteAddressRange W) (address : ℕ) (w : W)
      → register_write m r ≡ some m'
      → Memory.get m' address w ≡ Memory.get m address w
  unfolding register_write Memory.get
  register_write-keeps_reads m m' r address w e = ground arith

module _ {W : Type 0} (part : Part W Storage) where
  -- The RAM is in the world, at its address and of its size, and is mapped below the top of the
  -- address space.
  abbrev pub IsMapped : Storage → W → Type 0
  IsMapped s w =
      (1 ≤ length s.bytes)
      × (s.base_address + length s.bytes ≤ 65536)
      × ((part.view w).base_address ≡ s.base_address)
      × (length (part.view w).bytes ≡ length s.bytes)

  mapped-access :
      (s : Storage) (m m' : AddressSpace W) (address value : ℕ) (w w' : W)
      → IsMapped s w
      → initialize_ram part s m ≡ some m'
      → s.base_address ≤ address
      → address < s.base_address + length s.bytes
      → (Memory.get m' address w' ≡ (read_byte address (part.view w'), w'))
        × (Memory.set m' address value w ≡ part.put (write_byte address value (part.view w)) w)
  unfolding initialize_ram last_address
  mapped-access s m m' address value w w' (some_bytes, fits, at, size) e lo hi =
      elim (Option-cases (register_read m (read_range part s))) [
        | inl q ↦ absurd (ground arith)
        | inr (m1, q) ↦
            let written =
              subst
                (λ o.
                  (elim o [ none ↦ none | some m2 ↦ register_write m2 (write_range part s) ])
                  ≡ some m')
                q e in
            let reads = register_read-routes m m1 (read_range part s) address w' q in
            let writes = register_write-routes m1 m' (write_range part s) address value w written in
            (
              register_write-keeps_reads m1 m' (write_range part s) address w' written
                  ∙ reads.0 (lo, omega arith),
              writes.0 (lo, omega arith),
            )
      ]

  -- For a RAM of a byte at least below the top of the address space: after `Ram::initialize` succeeds,
  -- a byte written to an address of the RAM is read back there, and every other address of the RAM
  -- reads as before.
  pub initialize_ram_lem :
      (s : Storage) (m m' : AddressSpace W) (address other value : ℕ) (w : W)
      → IsMapped s w
      → initialize_ram part s m ≡ some m'
      → s.base_address ≤ address
      → address < s.base_address + length s.bytes
      → s.base_address ≤ other
      → other < s.base_address + length s.bytes
      → address ≢ other
      → ((Memory.get m' address (Memory.set m' address value w)).0 ≡ value)
        × ((Memory.get m' other (Memory.set m' address value w)).0 ≡ (Memory.get m' other w).0)
  unfolding read_byte write_byte
  initialize_ram_lem s m m' address other value w mapped e lo hi lo' hi' ne =
      let (some_bytes, fits, at, size) = mapped in
      let w' = Memory.set m' address value w in
      let here = mapped-access s m m' address value w w' mapped e lo hi in
      let there = mapped-access s m m' other value w w' mapped e lo' hi' in
      let before = mapped-access s m m' other value w w mapped e lo' hi' in
      let stored = ap part.view here.1 ∙ part.view-put (write_byte address value (part.view w)) w in
      let bytes = (part.view w).bytes in
      let offset = address - (part.view w).base_address in
      (
        ap (λ r. r.0) here.0
            ∙ (ap (read_byte address) stored ∙ get_or-set_self bytes offset value 0 (omega arith)),
        ap (λ r. r.0) there.0
            ∙ (ap (read_byte other) stored
                ∙ (get_or-set_ne bytes offset (other - (part.view w).base_address) value 0
                      (omega arith)
                    ∙ sym (ap (λ r. r.0) before.0))),
      )
