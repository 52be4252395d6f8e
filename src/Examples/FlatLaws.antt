-- ===== src/Examples/FlatLaws.antt =====
-- The flat world is memory at every address, and a sound board.
use hd6301_thing.Common.{[], ◌∷◌, ℕ, ◌<◌, arith}
use hd6301_thing.Memory.{get, set, get_in, set_in}
use hd6301_thing.Memory.Region.{IsRam}
use hd6301_thing.Cpu.Validity.{IsByteSpace}
use hd6301_thing.Cpu.Run.Keeps.{IsSound}
use hd6301_thing.Examples.Flat.{FlatMemory, update, flat_space, flat_board, placed}

abbrev pub AnyFlat : FlatMemory → Type 0
AnyFlat w = Unit

pub flat-IsRam : IsRam flat_space AnyFlat 0 65535
unfolding get set get_in set_in
flat-IsRam = record {
  write_keeps = λ p v w h1 h2 hv ok. tt;
  read_keeps = λ p w h1 h2 ok. ground arith;
  read_written = λ p v w h1 h2 hv ok. ground arith;
  read_other = λ p q v w h1 h2 h3 h4 ne hv ok. ground arith;
}

-- Every cell holds a byte.
abbrev pub ByteCells : FlatMemory → Type 0
ByteCells w = (p : ℕ) → w p < 256

update-ByteCells : (p v : ℕ) (w : FlatMemory) → v < 256 → ByteCells w → ByteCells (update w p v)
update-ByteCells p v w h ok q = ground (arith, ok q)

flat-IsByteSpace : IsByteSpace flat_space ByteCells
unfolding get set get_in set_in
flat-IsByteSpace = record {
  get_byte = λ p w ok. ground (arith, ok p);
  get_keeps = λ p w ok q. ground (arith, ok q);
  set_keeps = λ p v w h ok q. ground (arith, update-ByteCells p v w h ok q, ok q);
}

pub flat-IsSound : IsSound flat_board ByteCells
flat-IsSound = record {
  space = flat-IsByteSpace;
  timer_keeps = λ w ok. ok;
  serial_keeps = λ w ok. ok;
  callbacks_keep = tt;
}

-- A program of bytes.
pub placed-ByteCells : ByteCells (placed 256 (134 ∷ 200 ∷ 139 ∷ 100 ∷ 54 ∷ 51 ∷ []))
placed-ByteCells p = ground arith
