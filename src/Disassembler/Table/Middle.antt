-- ===== src/Disassembler/Table/Middle.antt =====
-- `kInstructions6301` (disassembler/instructions6301.h), the rows from 0x40 to 0x7f.
use hd6301_thing.Common.{List, [], ◌∷◌}
use hd6301_thing.Disassembler.Rows.{Instruction, row, unused, aca, acb, dir_bit, ext, idx, idx_bit}

abbrev pub middle_rows : List Instruction
middle_rows =
    row "nega" 1 1 aca
    ∷ unused
    ∷ unused
    ∷ row "coma" 1 1 aca
    ∷ row "lsra" 1 1 aca
    ∷ unused
    ∷ row "rora" 1 1 aca
    ∷ row "asra" 1 1 aca
    ∷ row "asla" 1 1 aca
    ∷ row "rola" 1 1 aca
    ∷ row "deca" 1 1 aca
    ∷ unused
    ∷ row "inca" 1 1 aca
    ∷ row "tsta" 1 1 aca
    ∷ unused
    ∷ row "clra" 1 1 aca
    ∷ row "negb" 1 1 acb
    ∷ unused
    ∷ unused
    ∷ row "comb" 1 1 acb
    ∷ row "lsrb" 1 1 acb
    ∷ unused
    ∷ row "rorb" 1 1 acb
    ∷ row "asrb" 1 1 acb
    ∷ row "aslb" 1 1 acb
    ∷ row "rolb" 1 1 acb
    ∷ row "decb" 1 1 acb
    ∷ unused
    ∷ row "incb" 1 1 acb
    ∷ row "tstb" 1 1 acb
    ∷ unused
    ∷ row "clrb" 1 1 acb
    ∷ row "neg" 2 6 idx
    ∷ row "aim" 3 7 idx_bit
    ∷ row "oim" 3 7 idx_bit
    ∷ row "com" 2 6 idx
    ∷ row "lsr" 2 6 idx
    ∷ row "eim" 3 7 idx_bit
    ∷ row "ror" 2 6 idx
    ∷ row "asr" 2 6 idx
    ∷ row "asl" 2 6 idx
    ∷ row "rol" 2 6 idx
    ∷ row "dec" 2 6 idx
    ∷ row "tim" 3 7 idx_bit
    ∷ row "inc" 2 6 idx
    ∷ row "tst" 2 4 idx
    ∷ row "jmp" 2 3 idx
    ∷ row "clr" 2 5 idx
    ∷ row "neg" 3 6 ext
    ∷ row "aim" 3 6 dir_bit
    ∷ row "oim" 3 6 dir_bit
    ∷ row "com" 3 6 ext
    ∷ row "lsr" 3 6 ext
    ∷ row "eim" 3 6 dir_bit
    ∷ row "ror" 3 6 ext
    ∷ row "asr" 3 6 ext
    ∷ row "asl" 3 6 ext
    ∷ row "rol" 3 6 ext
    ∷ row "dec" 3 6 ext
    ∷ row "tim" 3 6 dir_bit
    ∷ row "inc" 3 6 ext
    ∷ row "tst" 3 4 ext
    ∷ row "jmp" 3 3 ext
    ∷ row "clr" 3 5 ext
    ∷ []
