-- ===== src/Disassembler/Table/Low.antt =====
-- `kInstructions6301` (disassembler/instructions6301.h), the rows from 0x00 to 0x3f.
use hd6301_thing.Common.{List, [], ◌∷◌}
use hd6301_thing.Disassembler.Rows.{Instruction, row, unused, aca, acb, acd, imp, rel}

abbrev pub low_rows : List Instruction
low_rows =
    unused
    ∷ row "nop" 1 1 imp
    ∷ unused
    ∷ unused
    ∷ row "lsrd" 1 1 acd
    ∷ row "asld" 1 1 acd
    ∷ row "tap" 1 1 imp
    ∷ row "tpa" 1 1 imp
    ∷ row "inx" 1 1 imp
    ∷ row "dex" 1 1 imp
    ∷ row "clv" 1 1 imp
    ∷ row "sev" 1 1 imp
    ∷ row "clc" 1 1 imp
    ∷ row "sec" 1 1 imp
    ∷ row "cli" 1 1 imp
    ∷ row "sei" 1 1 imp
    ∷ row "sba" 1 1 acb
    ∷ row "cba" 1 1 acb
    ∷ unused
    ∷ unused
    ∷ unused
    ∷ unused
    ∷ row "tab" 1 1 aca
    ∷ row "tba" 1 1 acb
    ∷ row "xgdx" 1 2 imp
    ∷ unused
    ∷ unused
    ∷ row "aba" 1 1 acb
    ∷ unused
    ∷ unused
    ∷ unused
    ∷ unused
    ∷ row "bra" 2 3 rel
    ∷ row "brn" 2 3 rel
    ∷ row "bhi" 2 3 rel
    ∷ row "bls" 2 3 rel
    ∷ row "bcc" 2 3 rel
    ∷ row "bcs" 2 3 rel
    ∷ row "bne" 2 3 rel
    ∷ row "beq" 2 3 rel
    ∷ row "bvc" 2 3 rel
    ∷ row "bvs" 2 3 rel
    ∷ row "bpl" 2 3 rel
    ∷ row "bmi" 2 3 rel
    ∷ row "bge" 2 3 rel
    ∷ row "blt" 2 3 rel
    ∷ row "bgt" 2 3 rel
    ∷ row "ble" 2 3 rel
    ∷ row "tsx" 1 1 imp
    ∷ row "ins" 1 1 imp
    ∷ row "pula" 1 3 imp
    ∷ row "pulb" 1 3 imp
    ∷ row "des" 1 1 imp
    ∷ row "txs" 1 1 imp
    ∷ row "psha" 1 4 aca
    ∷ row "pshb" 1 4 acb
    ∷ row "pulx" 1 4 imp
    ∷ row "rts" 1 5 imp
    ∷ row "abx" 1 1 imp
    ∷ row "rti" 1 10 imp
    ∷ row "pshx" 1 5 imp
    ∷ row "mul" 1 7 imp
    ∷ unused
    ∷ unused
    ∷ []
