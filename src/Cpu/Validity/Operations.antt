-- ===== src/Cpu/Validity/Operations.antt =====
-- Each operation keeps the registers within their types.
use hd6301_thing.Common.{
  ℕ, ◌/◌, ◌<◌, Bool, arith, bit, bit_and, bit_or, bit_xor, bit_and-lt, bit_or-lt, bit_xor-lt, ◌<<<◌,
}
use hd6301_thing.Cpu.Alu.{
  StatusRegister, add, sub, sbc, neg, complement, logic, lsr, ror, rol, asr, asl, dec, inc, clr,
}
use hd6301_thing.Cpu.Instruction.{adc}

-- An operation on a byte passed by reference gives a byte.
abbrev pub KeepsByte : (ℕ → StatusRegister → ℕ × StatusRegister) → Type 0
KeepsByte op = (v : ℕ) (s : StatusRegister) → v < 256 → (op v s).0 < 256

-- A binary operation on bytes.
abbrev pub KeepsBytes : (ℕ → ℕ → ℕ) → Type 0
KeepsBytes op = (v w : ℕ) → v < 256 → w < 256 → op v w < 256

pub and-KeepsBytes : KeepsBytes bit_and
and-KeepsBytes v w h k = bit_and-lt 8 v w h

pub or-KeepsBytes : KeepsBytes bit_or
or-KeepsBytes v w h k = bit_or-lt 8 v w h k

pub xor-KeepsBytes : KeepsBytes bit_xor
xor-KeepsBytes v w h k = bit_xor-lt 8 v w h k

pub sub-KeepsByte : (m : ℕ) → KeepsByte (λ r. sub r m)
unfolding sub
sub-KeepsByte m v s h = omega arith

pub sbc-KeepsByte : (m : ℕ) → KeepsByte (λ r. sbc r m)
unfolding sbc
sbc-KeepsByte m v s h = omega arith

pub add-KeepsByte : (carry : Bool) (m : ℕ) → KeepsByte (λ r. add r carry m)
unfolding add
add-KeepsByte carry m v s h = omega arith

pub adc-KeepsByte : (m : ℕ) → KeepsByte (λ r. adc r m)
unfolding adc
adc-KeepsByte m v s h = omega arith

pub logic-KeepsByte : (m : ℕ) (op : ℕ → ℕ → ℕ) → m < 256 → KeepsBytes op → KeepsByte (logic m op)
unfolding logic
logic-KeepsByte m op hm k v s h = k v m h hm

pub neg-KeepsByte : KeepsByte neg
unfolding neg
neg-KeepsByte v s h = omega arith

pub complement-KeepsByte : KeepsByte complement
unfolding complement
complement-KeepsByte v s h = omega arith

pub lsr-KeepsByte : KeepsByte lsr
unfolding lsr
lsr-KeepsByte v s h = omega arith

pub ror-KeepsByte : KeepsByte ror
unfolding ror
ror-KeepsByte v s h = bit_or-lt 8 (v / 2) (bit s.c <<< 7) (omega arith) (ground arith)

pub rol-KeepsByte : KeepsByte rol
unfolding rol
rol-KeepsByte v s h = omega arith

pub asr-KeepsByte : KeepsByte asr
unfolding asr
asr-KeepsByte v s h = bit_or-lt 8 (bit_and v 128) (v / 2) (bit_and-lt 8 v 128 h) (omega arith)

pub asl-KeepsByte : KeepsByte asl
unfolding asl
asl-KeepsByte v s h = omega arith

pub dec-KeepsByte : KeepsByte dec
unfolding dec
dec-KeepsByte v s h = omega arith

pub inc-KeepsByte : KeepsByte inc
unfolding inc
inc-KeepsByte v s h = omega arith

pub clr-KeepsByte : KeepsByte clr
unfolding clr
clr-KeepsByte v s h = omega arith
