-- ===== src/Examples/Listing.antt =====
-- The disassembler on small programs, and its theorems at concrete inputs.
use hd6301_thing.Common.{ℕ, ◌≡◌, refl, arith, true, List, [], ◌∷◌, length, Option, none, some}
use hd6301_thing.Cpu.Run.{instruction_at}
use hd6301_thing.Disassembler.{
  Disassembler, Annotation, empty, store_bytes, disassemble, is_some, ends_flow,
}
use hd6301_thing.Disassembler.Rows.{is_rel}
use hd6301_thing.Disassembler.Table.{instructions6301}
use hd6301_thing.Disassembler.Agreement.{SameRow, instructions6301_lem}
use hd6301_thing.Disassembler.Worklist.Completion.{Confined, disassemble-ends}
use hd6301_thing.Examples.Flat.{flat_board}

instructions6301_lem_example : SameRow (instruction_at flat_board 0x86) (instructions6301 0x86)
instructions6301_lem_example = instructions6301_lem flat_board 0x86 (omega arith)

-- ldaa #1, bra to itself, and the vector to them.
abbrev program : Disassembler
program =
    store_bytes 0xfffe (0xff ∷ 0xf0 ∷ []) (store_bytes 0xfff0 (0x86 ∷ 1 ∷ 0x20 ∷ 0xfe ∷ []) empty)

abbrev annotation_at : ℕ → Option Disassembler → Option Annotation
annotation_at a none = none
annotation_at a (some d) = d.annotations a

abbrev lengths : List ℕ → Option Disassembler → List ℕ
lengths [] d = []
lengths (a ∷ more) d = length_at (annotation_at a d) ∷ lengths more d
  where
    length_at : Option Annotation → ℕ
    length_at none = 0
    length_at (some a) = length a.value

-- Two instructions of two bytes are found.
program-lengths :
    lengths (0xfff0 ∷ 0xfff1 ∷ 0xfff2 ∷ 0xfff3 ∷ []) (disassemble 10 program) ≡ 2 ∷ 0 ∷ 2 ∷ 0 ∷ []
unfolding disassemble store_bytes empty ends_flow is_rel
program-lengths = refl

program-Confined : Confined program
unfolding store_bytes empty
program-Confined a h = ground arith

disassemble-ends_example : is_some (disassemble 200000 program) ≡ true
unfolding store_bytes empty
disassemble-ends_example = disassemble-ends program 200000 program-Confined (omega arith)
