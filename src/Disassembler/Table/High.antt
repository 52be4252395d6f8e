-- ===== src/Disassembler/Table/High.antt =====
-- `kInstructions6301` (disassembler/instructions6301.h), the rows from 0x80 to 0xbf.
use hd6301_thing.Common.{List, [], ◌∷◌}
use hd6301_thing.Disassembler.Rows.{Instruction, row, unused, imm, im2, dir, ext, idx}

abbrev pub high_rows : List Instruction
high_rows =
    row "suba" 2 2 imm
    ∷ row "cmpa" 2 2 imm
    ∷ row "sbca" 2 2 imm
    ∷ row "subd" 3 3 im2
    ∷ row "anda" 2 2 imm
    ∷ row "bita" 2 2 imm
    ∷ row "ldaa" 2 2 imm
    ∷ unused
    ∷ row "eora" 2 2 imm
    ∷ row "adca" 2 2 imm
    ∷ row "oraa" 2 2 imm
    ∷ row "adda" 2 2 imm
    ∷ row "cpx" 3 3 im2
    ∷ row "bsr" 2 5 imm
    ∷ row "lds" 3 3 im2
    ∷ unused
    ∷ row "suba" 2 3 dir
    ∷ row "cmpa" 2 3 dir
    ∷ row "sbca" 2 3 dir
    ∷ row "subd" 2 4 dir
    ∷ row "anda" 2 3 dir
    ∷ row "bita" 2 3 dir
    ∷ row "ldaa" 2 3 dir
    ∷ row "staa" 2 3 dir
    ∷ row "eora" 2 3 dir
    ∷ row "adca" 2 3 dir
    ∷ row "oraa" 2 3 dir
    ∷ row "adda" 2 3 dir
    ∷ row "cpx" 2 4 dir
    ∷ row "jsr" 2 5 dir
    ∷ row "lds" 2 4 dir
    ∷ row "sts" 2 4 dir
    ∷ row "suba" 2 4 idx
    ∷ row "cmpa" 2 4 idx
    ∷ row "sbca" 2 4 idx
    ∷ row "subd" 2 5 idx
    ∷ row "anda" 2 4 idx
    ∷ row "bita" 2 4 idx
    ∷ row "ldaa" 2 4 idx
    ∷ row "staa" 2 4 idx
    ∷ row "eora" 2 4 idx
    ∷ row "adca" 2 4 idx
    ∷ row "oraa" 2 4 idx
    ∷ row "adda" 2 4 idx
    ∷ row "cpx" 2 5 idx
    ∷ row "jsr" 2 5 idx
    ∷ row "lds" 2 5 idx
    ∷ row "sts" 2 5 idx
    ∷ row "suba" 3 4 ext
    ∷ row "cmpa" 3 4 ext
    ∷ row "sbca" 3 4 ext
    ∷ row "subd" 3 5 ext
    ∷ row "anda" 3 4 ext
    ∷ row "bita" 3 4 ext
    ∷ row "ldaa" 3 4 ext
    ∷ row "staa" 3 4 ext
    ∷ row "eora" 3 4 ext
    ∷ row "adca" 3 4 ext
    ∷ row "oraa" 3 4 ext
    ∷ row "adda" 3 4 ext
    ∷ row "cpx" 3 5 ext
    ∷ row "jsr" 3 6 ext
    ∷ row "lds" 3 5 ext
    ∷ row "sts" 3 5 ext
    ∷ []
