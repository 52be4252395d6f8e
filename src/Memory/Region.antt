-- ===== src/Memory/Region.antt =====
-- A region of the address space that behaves as memory: what the stack of the processor relies on,
-- and what the RAM provides. A run of bytes in such a region.
use hd6301_thing.Common.{
  ℕ, suc, ◌+◌, ◌≤◌, ◌<◌, ◌≡◌, ◌≢◌, List, [], ◌∷◌, arith, length, ◌∙◌, ◌*◌, bit_or_concat,
}
use hd6301_thing.Memory.{AddressSpace, get, set, get16}

-- Reads have no effect and give what was written last, at addresses from `lo` to `hi`, in worlds
-- that satisfy `Ok`, which writes of bytes keep.
pub record IsRam {W : Type 0} (m : AddressSpace W) (Ok : W → Type 0) (lo hi : ℕ) : Type 0 where
  pub write_keeps : (p v : ℕ) (w : W) → lo ≤ p → p ≤ hi → v < 256 → Ok w → Ok (set m p v w)
  pub read_keeps : (p : ℕ) (w : W) → lo ≤ p → p ≤ hi → Ok w → (get m p w).1 ≡ w
  pub read_written :
      (p v : ℕ) (w : W) → lo ≤ p → p ≤ hi → v < 256 → Ok w → (get m p (set m p v w)).0 ≡ v
  pub read_other :
      (p q v : ℕ) (w : W)
      → lo ≤ p
      → p ≤ hi
      → lo ≤ q
      → q ≤ hi
      → p ≢ q
      → v < 256
      → Ok w
      → (get m q (set m p v w)).0 ≡ (get m q w).0

module _ {W : Type 0} (m : AddressSpace W) (Ok : W → Type 0) (lo hi : ℕ)
    (ram : IsRam m Ok lo hi) where
  -- The bytes `vs` stand at `p` and above.
  abbrev pub Bytes : W → ℕ → List ℕ → Type 0
  Bytes w p [] = Unit {0}
  Bytes w p (v ∷ vs) = ((get m p w).0 ≡ v) × Bytes w (suc p) vs

  Bytes-set_below :
      (w : W) (q v p : ℕ) (vs : List ℕ)
      → Ok w
      → v < 256
      → lo ≤ q
      → q < p
      → p + length vs ≤ suc hi
      → Bytes w p vs
      → Bytes (set m q v w) p vs
  Bytes-set_below w q v p [] ok hv h1 h2 h3 b = tt
  Bytes-set_below w q v p (u ∷ vs) ok hv h1 h2 h3 b = (
    ram.read_other q p v w (omega arith) (omega arith) (omega arith) (omega arith) (omega arith) hv
          ok
        ∙ b.0,
    Bytes-set_below w q v (suc p) vs ok hv h1 (omega arith) (omega arith) b.1,
  )

  -- A byte written just below a run extends it.
  pub Bytes-push :
      (w : W) (p v : ℕ) (vs : List ℕ)
      → Ok w
      → v < 256
      → lo ≤ p
      → suc p + length vs ≤ suc hi
      → Bytes w (suc p) vs
      → Bytes (set m p v w) p (v ∷ vs)
  Bytes-push w p v vs ok hv h1 h2 b = (
    ram.read_written p v w h1 (omega arith) hv ok,
    Bytes-set_below w p v (suc p) vs ok hv h1 (omega arith) h2 b,
  )

-- A big-endian word from two bytes that reads leave in place.
pub get16_lem :
    {W : Type 0} (m : AddressSpace W) (p high low : ℕ) (w : W)
    → p < 65535
    → high < 256
    → low < 256
    → get m p w ≡ (high, w)
    → get m (suc p) w ≡ (low, w)
    → get16 m p w ≡ (high * 256 + low, w)
unfolding get16
get16_lem m p high low w hp hh hl e1 e2 = ground (arith, bit_or_concat 8 8 high low hh hl)

module _ {W : Type 0} (m : AddressSpace W) (Ok : W → Type 0) (lo hi : ℕ)
    (ram : IsRam m Ok lo hi) where
  pub get-Bytes :
      (w : W) (p v : ℕ) (vs : List ℕ)
      → Ok w
      → lo ≤ p
      → p ≤ hi
      → Bytes m Ok lo hi ram w p (v ∷ vs)
      → get m p w ≡ (v, w)
  get-Bytes w p v vs ok h1 h2 b = λ i. (b.0 i, ram.read_keeps p w h1 h2 ok i)
