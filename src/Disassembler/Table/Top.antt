-- ===== src/Disassembler/Table/Top.antt =====
-- `kInstructions6301` (disassembler/instructions6301.h), the rows from 0xc0 to 0xff.
use hd6301_thing.Common.{List, [], ◌∷◌}
use hd6301_thing.Disassembler.Rows.{Instruction, row, unused, imm, im2, dir, ext, idx}

abbrev pub top_rows : List Instruction
top_rows =
    row "subb" 2 2 imm
    ∷ row "cmpb" 2 2 imm
    ∷ row "sbcb" 2 2 imm
    ∷ row "addd" 3 3 im2
    ∷ row "andb" 2 2 imm
    ∷ row "bitb" 2 2 imm
    ∷ row "ldab" 2 2 imm
    ∷ unused
    ∷ row "eorb" 2 2 imm
    ∷ row "adcb" 2 2 imm
    ∷ row "orab" 2 2 imm
    ∷ row "addb" 2 2 imm
    ∷ row "ldd" 3 3 im2
    ∷ unused
    ∷ row "ldx" 3 3 im2
    ∷ unused
    ∷ row "subb" 2 3 dir
    ∷ row "cmpb" 2 3 dir
    ∷ row "sbcb" 2 3 dir
    ∷ row "addd" 2 4 dir
    ∷ row "andb" 2 3 dir
    ∷ row "bitb" 2 3 dir
    ∷ row "ldab" 2 3 dir
    ∷ row "stab" 2 3 dir
    ∷ row "eorb" 2 3 dir
    ∷ row "adcb" 2 3 dir
    ∷ row "orab" 2 3 dir
    ∷ row "addb" 2 3 dir
    ∷ row "ldd" 2 4 dir
    ∷ row "std" 2 4 dir
    ∷ row "ldx" 2 4 dir
    ∷ row "stx" 2 4 dir
    ∷ row "subb" 2 4 idx
    ∷ row "cmpb" 2 4 idx
    ∷ row "sbcb" 2 4 idx
    ∷ row "addd" 2 5 idx
    ∷ row "andb" 2 4 idx
    ∷ row "bitb" 2 4 idx
    ∷ row "ldab" 2 4 idx
    ∷ row "stab" 2 4 idx
    ∷ row "eorb" 2 4 idx
    ∷ row "adcb" 2 4 idx
    ∷ row "orab" 2 4 idx
    ∷ row "addb" 2 4 idx
    ∷ row "ldd" 2 5 idx
    ∷ row "std" 2 5 idx
    ∷ row "ldx" 2 5 idx
    ∷ row "stx" 2 5 idx
    ∷ row "subb" 3 4 ext
    ∷ row "cmpb" 3 4 ext
    ∷ row "sbcb" 3 4 ext
    ∷ row "addd" 3 5 ext
    ∷ row "andb" 3 4 ext
    ∷ row "bitb" 3 4 ext
    ∷ row "ldab" 3 4 ext
    ∷ row "stab" 3 4 ext
    ∷ row "eorb" 3 4 ext
    ∷ row "adcb" 3 4 ext
    ∷ row "orab" 3 4 ext
    ∷ row "addb" 3 4 ext
    ∷ row "ldd" 3 5 ext
    ∷ row "std" 3 5 ext
    ∷ row "ldx" 3 5 ext
    ∷ row "stx" 3 5 ext
    ∷ []
