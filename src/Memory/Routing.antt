-- ===== src/Memory/Routing.antt =====
-- Where an access goes: registration of a range routes exactly its addresses to its callback.
use hd6301_thing.Common.{
  ℕ, ◌≤◌, ◌<◌, true, false, ◌&&◌, none, some, List, [], ◌∷◌, ◌++◌, leb, ◌≡◌, ◌⊎◌, inl, inr, ◌↔◌,
  arith, All, max, Bool-cases,
}
use hd6301_thing.Memory.{
  ReadAddressRange, WriteAddressRange, AddressSpace, reads_overlap, writes_overlap, register_read,
  register_write, get_in, set_in, get, set,
}

abbrev pub Inside : ℕ → ℕ → ℕ → Type 0
Inside start end address = (start ≤ address) × (address ≤ end)

abbrev pub Outside : ℕ → ℕ → ℕ → Type 0
Outside start end address = (address < start) ⊎ (end < address)

module _ {W : Type 0} where
  get_in-append-Inside :
      (rs : List (ReadAddressRange W)) (r : ReadAddressRange W) (address : ℕ) (w : W)
      → reads_overlap r.start r.end rs ≡ false
      → Inside r.start r.end address
      → get_in (rs ++ r ∷ []) address w ≡ r.callback address w
  unfolding get_in reads_overlap
  get_in-append-Inside [] r address w free (lo, hi) = ground arith
  get_in-append-Inside (x ∷ rs) r address w free (lo, hi) =
      ground (arith, get_in-append-Inside rs r address w)

  get_in-append-Outside :
      (rs : List (ReadAddressRange W)) (r : ReadAddressRange W) (address : ℕ) (w : W)
      → Outside r.start r.end address
      → get_in (rs ++ r ∷ []) address w ≡ get_in rs address w
  unfolding get_in
  get_in-append-Outside [] r address w out = ground arith
  get_in-append-Outside (x ∷ rs) r address w out =
      ground (arith, get_in-append-Outside rs r address w out)

  set_in-append-Inside :
      (rs : List (WriteAddressRange W)) (r : WriteAddressRange W) (address value : ℕ) (w : W)
      → writes_overlap r.start r.end rs ≡ false
      → Inside r.start r.end address
      → set_in (rs ++ r ∷ []) address value w ≡ r.callback address value w
  unfolding set_in writes_overlap
  set_in-append-Inside [] r address value w free (lo, hi) = ground arith
  set_in-append-Inside (x ∷ rs) r address value w free (lo, hi) =
      ground (arith, set_in-append-Inside rs r address value w)

  set_in-append-Outside :
      (rs : List (WriteAddressRange W)) (r : WriteAddressRange W) (address value : ℕ) (w : W)
      → Outside r.start r.end address
      → set_in (rs ++ r ∷ []) address value w ≡ set_in rs address value w
  unfolding set_in
  set_in-append-Outside [] r address value w out = ground arith
  set_in-append-Outside (x ∷ rs) r address value w out =
      ground (arith, set_in-append-Outside rs r address value w out)

  -- After a read range is registered, a read inside it is answered by its callback, and a read
  -- outside it is answered as before.
  pub register_read-routes :
      (m m' : AddressSpace W) (r : ReadAddressRange W) (address : ℕ) (w : W)
      → register_read m r ≡ some m'
      → (Inside r.start r.end address → get m' address w ≡ r.callback address w)
        × (Outside r.start r.end address → get m' address w ≡ get m address w)
  unfolding register_read get
  register_read-routes m m' r address w e =
      elim (Bool-cases (reads_overlap r.start r.end m.read_ranges)) [
        | inl taken ↦ absurd (ground arith)
        | inr free ↦ (
          λ inside. ground (arith, get_in-append-Inside m.read_ranges r address w free inside),
          λ outside. ground (arith, get_in-append-Outside m.read_ranges r address w outside),
        )
      ]

  -- After a write range is registered, a write inside it is done by its callback, and a write
  -- outside it is done as before.
  pub register_write-routes :
      (m m' : AddressSpace W) (r : WriteAddressRange W) (address value : ℕ) (w : W)
      → register_write m r ≡ some m'
      → (Inside r.start r.end address → set m' address value w ≡ r.callback address value w)
        × (Outside r.start r.end address → set m' address value w ≡ set m address value w)
  unfolding register_write set
  register_write-routes m m' r address value w e =
      elim (Bool-cases (writes_overlap r.start r.end m.write_ranges)) [
        | inl taken ↦ absurd (ground arith)
        | inr free ↦ (
          λ inside.
              ground (arith, set_in-append-Inside m.write_ranges r address value w free inside),
          λ outside. ground (arith, set_in-append-Outside m.write_ranges r address value w outside),
        )
      ]

  -- Some range of the list has an address in common with [start, end].
  pub data SharesAddress (start end : ℕ) : List (ReadAddressRange W) → Type 0 where
    here :
        {r : ReadAddressRange W} {rs : List (ReadAddressRange W)} (address : ℕ)
        → Inside start end address
        → Inside r.start r.end address
        → SharesAddress start end (r ∷ rs)
    later :
        {r : ReadAddressRange W} {rs : List (ReadAddressRange W)}
        → SharesAddress start end rs
        → SharesAddress start end (r ∷ rs)

  shares_of_overlap :
      (start end : ℕ) (rs : List (ReadAddressRange W))
      → start ≤ end
      → All (λ r. r.start ≤ r.end) rs
      → reads_overlap start end rs ≡ true
      → SharesAddress start end rs
  unfolding reads_overlap
  shares_of_overlap start end [] ordered all e = absurd (ground arith)
  shares_of_overlap start end (r ∷ rs) ordered all e =
      elim (Bool-cases (leb r.start end && leb start r.end)) [
        | inl meets ↦ here (max start r.start) (ground arith) (ground (arith, all.0))
        | inr apart ↦ later (shares_of_overlap start end rs ordered all.1 (ground arith))
      ]

  overlap_of_shares :
      (start end : ℕ) {rs : List (ReadAddressRange W)}
      → SharesAddress start end rs
      → reads_overlap start end rs ≡ true
  unfolding reads_overlap
  overlap_of_shares start end (here {r} {rs} address i j) = ground arith
  overlap_of_shares start end (later {r} {rs} s) = ground (arith, overlap_of_shares start end s)

  -- Among ranges with start ≤ end, a registration for reads is refused exactly when an address of
  -- the new range is already registered for reads.
  pub register_read-none_iff :
      (m : AddressSpace W) (r : ReadAddressRange W)
      → r.start ≤ r.end
      → All (λ s. s.start ≤ s.end) m.read_ranges
      → (register_read m r ≡ none) ↔ SharesAddress r.start r.end m.read_ranges
  unfolding register_read
  register_read-none_iff m r ordered all = (
    λ e. shares_of_overlap r.start r.end m.read_ranges ordered all (ground arith),
    λ s. rw (overlap_of_shares r.start r.end s),
  )
