-- ===== src/Cpu/Instruction.antt =====
-- Instructions, the forms that their `exec` closures take, and `Cpu6301::execute`
-- (emulator/cpu6301.h and .cc).
use hd6301_thing.Common.{
  ℕ, ◌+◌, bit_and, bit_or, Bool, true, false, xor, String, List, [], ◌∷◌, ◌==◌, bit, u8, u16, ◌<<<◌,
  if◌then◌else◌,
}
use hd6301_thing.Memory.{AddressSpace}
use hd6301_thing.Cpu.Alu.{StatusRegister, cmp, cmp16, add, nzv_sr, nzv_sr16}
use hd6301_thing.Cpu.State.{Cpu, Accumulator, get_acc, set_acc, on_flags, get_d, set_d, brx}
use hd6301_thing.Cpu.Access.{get, get16, set, set16, fetch, fetch16, pul8, pul16, logic_m}

pub data AddressingMode : Type 0 where
  imm im2 aca acb acd dir ext idx imp rel ill : AddressingMode

unfoldable pub is_ill : AddressingMode → Bool
is_ill ill = true
is_ill m = false

pub record Instruction (W : Type 0) : Type 0 where
  pub name : String
  pub bytes : ℕ
  pub cycles : ℕ
  pub mode : AddressingMode
  pub exec : ℕ → Cpu W → Cpu W

-- The conditions of the branches. C++ adds Booleans as the integers 0 and 1.
unfoldable pub is_bhi : StatusRegister → Bool
is_bhi s = bit s.c + bit s.z == 0

unfoldable pub is_bls : StatusRegister → Bool
is_bls s = bit s.c + bit s.z == 1

unfoldable pub is_bge : StatusRegister → Bool
is_bge s = bit (xor s.n s.v) == 0

unfoldable pub is_blt : StatusRegister → Bool
is_blt s = bit (xor s.n s.v) == 1

unfoldable pub is_bgt : StatusRegister → Bool
is_bgt s = bit s.z + bit (xor s.n s.v) == 0

unfoldable pub is_ble : StatusRegister → Bool
is_ble s = bit s.z + bit (xor s.n s.v) == 1

-- `add` with the carry flag.
unfoldable pub adc : ℕ → ℕ → StatusRegister → ℕ × StatusRegister
unfolding add
adc dest mem sr = add dest sr.c mem sr

module _ {W : Type 0} where
  -- An element of the array before the constructor fills it; its `exec` is empty and never called.
  unfoldable pub illegal : Instruction W
  illegal = record { name = "illegal"; bytes = 1; cycles = 1; mode = ill; exec = λ d c. c }

  abbrev pub entry : ℕ → String → ℕ → ℕ → AddressingMode → (ℕ → Cpu W → Cpu W) → ℕ × Instruction W
  entry opcode name bytes cycles mode exec =
      (opcode, record { name = name; bytes = bytes; cycles = cycles; mode = mode; exec = exec })

  unfoldable pub lookup : ℕ → List (ℕ × Instruction W) → Instruction W
  unfolding illegal
  lookup opcode [] = illegal
  lookup opcode ((o, instruction) ∷ rest) = if o == opcode then instruction else lookup opcode rest

  -- brx(condition, d)
  unfoldable pub branch : (StatusRegister → Bool) → ℕ → Cpu W → Cpu W
  unfolding brx
  branch condition d c = brx (condition c.sr) d c

  -- cmp(a, value), cmp16(x, value)
  unfoldable pub compare : Accumulator → ℕ → Cpu W → Cpu W
  unfolding get_acc on_flags
  compare r value c = on_flags (cmp (get_acc r c) value) c

  unfoldable pub compare_x : ℕ → Cpu W → Cpu W
  unfolding on_flags
  compare_x value c = on_flags (cmp16 c.x value) c

  -- nzv_sr(a = value), nzv_sr(value & a)
  unfoldable pub load : Accumulator → ℕ → Cpu W → Cpu W
  unfolding set_acc on_flags
  load r value c = on_flags (nzv_sr value) (set_acc r value c)

  unfoldable pub bit_test : Accumulator → ℕ → Cpu W → Cpu W
  unfolding get_acc on_flags
  bit_test r value c = on_flags (nzv_sr (u8 (bit_and value (get_acc r c)))) c

  -- nzv_sr16(set_d(value)), nzv_sr16(sp = value), nzv_sr16(x = value)
  unfoldable pub load_d : ℕ → Cpu W → Cpu W
  unfolding set_d on_flags
  load_d value c = on_flags (nzv_sr16 value) (set_d value c)

  unfoldable pub load_sp : ℕ → Cpu W → Cpu W
  unfolding on_flags
  load_sp value c = on_flags (nzv_sr16 value) (record c { sp = value })

  unfoldable pub load_x : ℕ → Cpu W → Cpu W
  unfolding on_flags
  load_x value c = on_flags (nzv_sr16 value) (record c { x = value })

module _ {W : Type 0} (memory : AddressSpace W) where
  -- f(get(d)), f(get16(d))
  unfoldable pub with_get : (ℕ → Cpu W → Cpu W) → ℕ → Cpu W → Cpu W
  unfolding get
  with_get f d c = let (v, c1) = get memory d c in f v c1

  unfoldable pub with_get16 : (ℕ → Cpu W → Cpu W) → ℕ → Cpu W → Cpu W
  unfolding get16
  with_get16 f d c = let (v, c1) = get16 memory d c in f v c1

  -- f(pul8()), f(pul16())
  unfoldable pub with_pul8 : (ℕ → Cpu W → Cpu W) → Cpu W → Cpu W
  unfolding pul8
  with_pul8 f c = let (v, c1) = pul8 memory c in f v c1

  unfoldable pub with_pul16 : (ℕ → Cpu W → Cpu W) → Cpu W → Cpu W
  unfolding pul16
  with_pul16 f c = let (v, c1) = pul16 memory c in f v c1

  -- set(d, a), nzv_sr(a)
  unfoldable pub store : Accumulator → ℕ → Cpu W → Cpu W
  unfolding get_acc set on_flags
  store r d c = on_flags (nzv_sr (get_acc r c)) (set memory d (get_acc r c) c)

  -- set16(d, value), nzv_sr16(value)
  unfoldable pub store16 : (Cpu W → ℕ) → ℕ → Cpu W → Cpu W
  unfolding set16 on_flags
  store16 value d c = on_flags (nzv_sr16 (value c)) (set16 memory d (value c) c)

  -- logic_m(x + fetch(), d, op, do_set) and logic_m(fetch(), d, op, do_set)
  unfoldable pub logic_idx : (ℕ → ℕ → ℕ) → Bool → ℕ → Cpu W → Cpu W
  unfolding fetch logic_m
  logic_idx op do_set d c =
      let (v, c1) = fetch memory c in logic_m memory (u16 (c1.x + v)) (u8 d) op do_set c1

  unfoldable pub logic_dir : (ℕ → ℕ → ℕ) → Bool → ℕ → Cpu W → Cpu W
  unfolding fetch logic_m
  logic_dir op do_set d c = let (v, c1) = fetch memory c in logic_m memory v (u8 d) op do_set c1

  -- The operand of an instruction, fetched by its mode. The operands of the `|` in the mode `kIM2`
  -- are taken from left to right.
  unfoldable pub operand : AddressingMode → Cpu W → ℕ × Cpu W
  unfolding fetch fetch16 get_d
  operand imm c = fetch memory c
  operand im2 c =
      let (high, c1) = fetch memory c in
      let (low, c2) = fetch memory c1 in (bit_or (high <<< 8) low, c2)
  operand aca c = (c.a, c)
  operand acb c = (c.b, c)
  operand acd c = (get_d c, c)
  operand dir c = fetch memory c
  operand ext c = fetch16 memory c
  operand idx c = let (v, c1) = fetch memory c in (u16 (c1.x + v), c1)
  operand imp c = (0, c)
  operand rel c = fetch memory c
  operand ill c = (0, c)

  -- An unhandled addressing mode is logged and nothing is executed.
  unfoldable pub execute : Instruction W → Cpu W → Cpu W
  unfolding operand is_ill
  execute instruction c =
      let (d, c1) = operand instruction.mode c in
      if is_ill instruction.mode then c else instruction.exec d c1
