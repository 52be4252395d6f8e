-- ===== src/Disassembler/Agreement.antt =====
-- The table of the disassembler and the one of the processor
-- (disassembler/instructions6301.h and emulator/cpu6301.cc).
use hd6301_thing.Common.{
  ℕ, ◌<◌, ◌≡◌, ◌⊎◌, refl, Bool, true, false, ◌==◌, ◌&&◌, ◌||◌, holds_below, holds_below→at, String,
  arith,
}
use Prim.Native.Nat.{lt, eq, gt}
use Prim.Native.String.{compare}
use hd6301_thing.Cpu.Instruction
use hd6301_thing.Cpu.Instruction.{Instruction, lookup}
use hd6301_thing.Cpu.Run.{Board, instruction_at}
use hd6301_thing.Disassembler.Rows
use hd6301_thing.Disassembler.Table.{instructions6301}

abbrev pub same_text : String → String → Bool
same_text s t = elim (compare s t) [ lt ↦ false | eq ↦ true | gt ↦ false ]

-- The modes that stand for the same operands. The table of the processor has the two modes of the
-- instructions on bits as immediate.
abbrev pub same_mode : Instruction.AddressingMode → Rows.AddressingMode → Bool
same_mode Instruction.imm Rows.imm = true
same_mode Instruction.imm Rows.dir_bit = true
same_mode Instruction.imm Rows.idx_bit = true
same_mode Instruction.im2 Rows.im2 = true
same_mode Instruction.aca Rows.aca = true
same_mode Instruction.acb Rows.acb = true
same_mode Instruction.acd Rows.acd = true
same_mode Instruction.dir Rows.dir = true
same_mode Instruction.ext Rows.ext = true
same_mode Instruction.idx Rows.idx = true
same_mode Instruction.imp Rows.imp = true
same_mode Instruction.rel Rows.rel = true
same_mode m n = false

-- The processor has no instruction at the opcode, and the disassembler neither; or both have the
-- same one.
abbrev pub SameRow : {W : Type 0} → Instruction W → Rows.Instruction → Type 0
SameRow p q =
    ((Instruction.is_ill p.mode ≡ true) × (Rows.is_ill q.mode ≡ true))
    ⊎ ((same_text p.name q.name ≡ true)
        × (p.bytes ≡ q.bytes)
        × (p.cycles ≡ q.cycles)
        × (same_mode p.mode q.mode ≡ true))

abbrev same_row : {W : Type 0} → Instruction W → Rows.Instruction → Bool
same_row p q =
    (Instruction.is_ill p.mode && Rows.is_ill q.mode)
    || (same_text p.name q.name
        && p.bytes == q.bytes
        && p.cycles == q.cycles
        && same_mode p.mode q.mode)

same_row→SameRow :
    {W : Type 0} (p : Instruction W) (q : Rows.Instruction) → same_row p q ≡ true → SameRow p q
same_row→SameRow p q h = ground arith

module _ {W : Type 0} (board : Board W) where
  every_row : holds_below (λ n. same_row (instruction_at board n) (instructions6301 n)) 256 ≡ true
  unfolding holds_below instruction_at lookup instructions6301 Instruction.is_ill Rows.is_ill
  every_row = refl

  -- At every opcode, the table of the disassembler has an illegal instruction where the processor
  -- has none, and elsewhere the name, the length, the cycles and the mode of the instruction that the
  -- processor executes.
  pub instructions6301_lem :
      (opcode : ℕ) → opcode < 256 → SameRow (instruction_at board opcode) (instructions6301 opcode)
  instructions6301_lem opcode h =
      same_row→SameRow (instruction_at board opcode) (instructions6301 opcode) (
        holds_below→at (λ n. same_row (instruction_at board n) (instructions6301 n)) 256 opcode h
          every_row)
