-- ===== src/Cpu/Validity.antt =====
-- The registers hold values of their types: what every instruction keeps (emulator/cpu6301.cc).
pub mod Operations
pub mod Access
pub mod Forms
pub mod MemoryForms
pub mod Table
use hd6301_thing.Common.{ℕ, ◌<◌, ◌≤◌}
use hd6301_thing.Memory.{AddressSpace, get, set}
use hd6301_thing.Cpu.State.{Cpu}
use hd6301_thing.Cpu.Instruction.{Instruction}

-- An address space over which reads give bytes, in the worlds that satisfy `Ok`; reads and writes
-- of bytes keep those.
pub record IsByteSpace {W : Type 0} (m : AddressSpace W) (Ok : W → Type 0) : Type 0 where
  pub get_byte : (p : ℕ) (w : W) → Ok w → (get m p w).0 < 256
  pub get_keeps : (p : ℕ) (w : W) → Ok w → Ok (get m p w).1
  pub set_keeps : (p v : ℕ) (w : W) → v < 256 → Ok w → Ok (set m p v w)

abbrev pub IsValid : {W : Type 0} → (W → Type 0) → Cpu W → Type 0
IsValid Ok c =
    (c.a < 256) × (c.b < 256) × (c.x < 65536) × (c.sp < 65536) × (c.pc < 65536) × Ok c.world

-- An `exec` closure keeps validity, given an operand of 16 bits.
abbrev pub Keeps : {W : Type 0} → (W → Type 0) → (ℕ → Cpu W → Cpu W) → Type 0
Keeps {W} Ok f = (d : ℕ) (c : Cpu W) → d < 65536 → IsValid Ok c → IsValid Ok (f d c)

-- The same of an entry of the table.
abbrev pub Keep : {W : Type 0} → (W → Type 0) → ℕ × Instruction W → Type 0
Keep Ok e = Keeps Ok e.1.exec
