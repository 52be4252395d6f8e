-- ===== src/Disassembler/Table.antt =====
-- `kInstructions6301` (disassembler/instructions6301.h), in four parts.
pub mod Low
pub mod Middle
pub mod High
pub mod Top
use hd6301_thing.Common.{ℕ, List, ◌++◌, get_or}
use hd6301_thing.Disassembler.Rows.{Instruction, unused}
use hd6301_thing.Disassembler.Table.Low.{low_rows}
use hd6301_thing.Disassembler.Table.Middle.{middle_rows}
use hd6301_thing.Disassembler.Table.High.{high_rows}
use hd6301_thing.Disassembler.Table.Top.{top_rows}

unfoldable pub instructions6301 : ℕ → Instruction
instructions6301 opcode = get_or (low_rows ++ middle_rows ++ high_rows ++ top_rows) opcode unused
