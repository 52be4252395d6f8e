-- ===== src/Examples/Arithmetic.antt =====
-- The theorems on the arithmetic and the flags at concrete bytes.
use hd6301_thing.Common.{[], ◌≡◌, arith, true, false, not, ◌↔◌}
use hd6301_thing.Cpu.Alu.{StatusRegister, add, cmp, sbc}
use hd6301_thing.Cpu.State.{Cpu}
use hd6301_thing.Cpu.Instruction.{is_bhi, is_bls, is_bge, is_blt, is_bgt, is_ble}
use hd6301_thing.Cpu.Flags.{add_lem}
use hd6301_thing.Cpu.Branches.{branches_after_cmp, complementary_iff}
use hd6301_thing.Cpu.Borrow.{sbc_lem}
use hd6301_thing.Examples.Flat.{FlatMemory, no_flags, cpu_at, placed}

abbrev with_carry : StatusRegister
with_carry = record { h = false; i = false; n = false; z = false; v = false; c = true }

add_lem_example :
    add 200 true 100 no_flags
    ≡ (45, record { h = false; i = false; n = false; z = false; v = false; c = true })
unfolding add
add_lem_example = add_lem 200 100 true no_flags (omega arith) (omega arith)

sbc_lem_example :
    ((sbc 5 255 with_carry).0 ≡ 5)
    × ((sbc 5 255 with_carry).1.z ≡ false)
    × (((sbc 5 255 with_carry).1.c ≡ true) ↔ (true ≡ false))
    × (((sbc 5 255 with_carry).1.v ≡ false) ↔ (false ≡ false))
unfolding sbc
sbc_lem_example = sbc_lem 5 255 with_carry (omega arith) (omega arith)

branches_after_cmp_example :
    (is_bhi (cmp 200 100 no_flags) ≡ true)
    × (is_bls (cmp 200 100 no_flags) ≡ false)
    × (is_bge (cmp 200 100 no_flags) ≡ false)
    × (is_blt (cmp 200 100 no_flags) ≡ true)
    × (is_bgt (cmp 200 100 no_flags) ≡ false)
    × (is_ble (cmp 200 100 no_flags) ≡ true)
unfolding is_bhi is_bls is_bge is_blt is_bgt is_ble
branches_after_cmp_example = branches_after_cmp 200 100 no_flags (omega arith) (omega arith)

complementary_iff_example :
    ((is_bls with_carry ≡ not (is_bhi with_carry)) ↔ (false ≡ false))
    × ((is_ble with_carry ≡ not (is_bgt with_carry)) ↔ (false ≡ false))
unfolding is_bhi is_bls is_bgt is_ble
complementary_iff_example = complementary_iff with_carry

abbrev two_hundred : Cpu FlatMemory
two_hundred = record (cpu_at 0 (placed 0 [])) { a = 200 }
