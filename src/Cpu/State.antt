-- ===== src/Cpu/State.antt =====
-- The registers, memory access, the stack and the operations on the whole processor
-- (emulator/cpu6301.h and .cc). The processor and the world it is wired to change together.
use hd6301_thing.Common.{
  ℕ, ◌+◌, ◌*◌, bit_and, bit_or, Bool, Option, ltb, if◌then◌else◌, nz, ◌==◌, u8, u16, sub16, ◌<<<◌,
  ◌>>>◌,
}
use hd6301_thing.Cpu.Alu.{StatusRegister, from_integer, as_integer, cmp16, addd_flags, rot_flags16}

pub record Cpu (W : Type 0) : Type 0 where
  pub a : ℕ
  pub b : ℕ
  pub x : ℕ
  pub sp : ℕ
  pub pc : ℕ
  pub sr : StatusRegister
  pub breakpoint : Option ℕ
  pub world : W

-- An accumulator that an instruction takes by reference.
pub data Accumulator : Type 0 where
  acc_a acc_b : Accumulator

-- The conversion of an `int8_t` to 16 bits.
unfoldable pub sign_extend : ℕ → ℕ
sign_extend offset = if ltb offset 128 then offset else offset + 65280

module _ {W : Type 0} where
  unfoldable pub get_acc : Accumulator → Cpu W → ℕ
  get_acc acc_a c = c.a
  get_acc acc_b c = c.b

  unfoldable pub set_acc : Accumulator → ℕ → Cpu W → Cpu W
  set_acc acc_a v c = record c { a = v }
  set_acc acc_b v c = record c { b = v }

  -- An operation on an accumulator passed by reference.
  unfoldable pub by_ref : Accumulator → (ℕ → StatusRegister → ℕ × StatusRegister) → Cpu W → Cpu W
  unfolding get_acc set_acc
  by_ref r op c = let (v, s) = op (get_acc r c) c.sr in set_acc r v (record c { sr = s })

  -- An operation on the flags alone.
  unfoldable pub on_flags : (StatusRegister → StatusRegister) → Cpu W → Cpu W
  on_flags f c = record c { sr = f c.sr }

  unfoldable pub get_d : Cpu W → ℕ
  get_d c = bit_or (c.a <<< 8) c.b

  unfoldable pub set_d : ℕ → Cpu W → Cpu W
  set_d d c = record c { a = u8 (d >>> 8); b = u8 d }

  unfoldable pub tap : Cpu W → Cpu W
  tap c = record c { sr = from_integer c.a }

  unfoldable pub tpa : Cpu W → Cpu W
  tpa c = record c { a = as_integer c.sr }

  -- `add_z` on `x`; the table uses it for `inx` and, with 0xffff, for `dex`.
  unfoldable pub add_z : ℕ → Cpu W → Cpu W
  add_z value c = let r = u16 (c.x + value) in record c { x = r; sr = record (c.sr) { z = r == 0 } }

  unfoldable pub subd : ℕ → Cpu W → Cpu W
  unfolding get_d set_d
  subd value c = let d = get_d c in set_d (sub16 d value) (record c { sr = cmp16 d value c.sr })

  unfoldable pub addd : ℕ → Cpu W → Cpu W
  unfolding get_d set_d
  addd value c =
      let d = get_d c in set_d (u16 (d + value)) (record c { sr = addd_flags d value c.sr })

  unfoldable pub xgdx : Cpu W → Cpu W
  unfolding get_d set_d
  xgdx c = let d = get_d c in record (set_d c.x c) { x = d }

  unfoldable pub brx : Bool → ℕ → Cpu W → Cpu W
  unfolding sign_extend
  brx branch dest c = if branch then record c { pc = u16 (c.pc + sign_extend (u8 dest)) } else c

  unfoldable pub mul : Cpu W → Cpu W
  mul c =
      let r = c.a * c.b in
      record c { a = u8 (r >>> 8); b = u8 r; sr = record (c.sr) { c = nz (u8 r >>> 7) } }

  unfoldable pub lsrd : ℕ → Cpu W → Cpu W
  unfolding set_d
  lsrd dest c =
      let r = dest >>> 1 in
      let c' = set_d r c in record c' { sr = rot_flags16 r (nz (bit_and dest 1)) c'.sr }

  unfoldable pub asld : ℕ → Cpu W → Cpu W
  unfolding set_d
  asld dest c =
      let r = u16 (dest <<< 1) in
      let c' = set_d r c in record c' { sr = rot_flags16 r (nz (bit_and dest 0x8000)) c'.sr }
