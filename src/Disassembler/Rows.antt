-- ===== src/Disassembler/Rows.antt =====
-- The rows of the table of instructions (disassembler/instructions6301.h).
use hd6301_thing.Common.{ℕ, String, Bool, true, false}

pub data AddressingMode : Type 0 where
  imm im2 aca acb acd dir dir_bit ext idx idx_bit imp rel ill : AddressingMode

pub record Instruction : Type 0 where
  pub name : String
  pub bytes : ℕ
  pub cycles : ℕ
  pub mode : AddressingMode

abbrev pub row : String → ℕ → ℕ → AddressingMode → Instruction
row name bytes cycles mode = record { name = name; bytes = bytes; cycles = cycles; mode = mode }

-- An illegal instruction.
abbrev pub unused : Instruction
unused = row "" 0 0 ill

unfoldable pub is_ill : AddressingMode → Bool
is_ill ill = true
is_ill m = false

unfoldable pub is_rel : AddressingMode → Bool
is_rel rel = true
is_rel m = false

unfoldable pub is_idx : AddressingMode → Bool
is_idx idx = true
is_idx m = false
