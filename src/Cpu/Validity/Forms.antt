-- ===== src/Cpu/Validity/Forms.antt =====
-- Each form of an `exec` closure keeps the registers within their types.
use hd6301_thing.Common.{ℕ, ◌+◌, ◌<◌, Bool, false, arith, bit_or-lt, u8, u16, sub16, ◌<<<◌, ◌>>>◌}
use hd6301_thing.Cpu.Alu.{StatusRegister, sub, sbc, add, logic}
use hd6301_thing.Cpu.State.{
  Cpu, Accumulator, acc_a, acc_b, get_acc, set_acc, by_ref, on_flags, get_d, set_d, tap, tpa, add_z,
  subd, addd, xgdx, brx, mul, lsrd, asld,
}
use hd6301_thing.Cpu.Instruction.{
  adc, branch, compare, compare_x, load, bit_test, load_d, load_sp, load_x,
}
use hd6301_thing.Cpu.Interrupts.{as_integer-lt}
use hd6301_thing.Cpu.Validity.{IsValid, Keeps}
use hd6301_thing.Cpu.Validity.Operations.{
  KeepsByte, KeepsBytes, sub-KeepsByte, sbc-KeepsByte, add-KeepsByte, adc-KeepsByte,
  logic-KeepsByte,
}

module _ {W : Type 0} (Ok : W → Type 0) where
  -- An operation on the processor that takes an operand below a bound.
  abbrev pub Takes : ℕ → (ℕ → Cpu W → Cpu W) → Type 0
  Takes bound f = (d : ℕ) (c : Cpu W) → d < bound → IsValid Ok c → IsValid Ok (f d c)

  pub byte-Keeps : (f : ℕ → Cpu W → Cpu W) → Takes 256 f → Keeps Ok (λ d. f (u8 d))
  byte-Keeps f h d c k v = h (u8 d) c (omega arith) v

  pub fixed-Keeps :
      (f : Cpu W → Cpu W) → ((c : Cpu W) → IsValid Ok c → IsValid Ok (f c)) → Keeps Ok (λ d. f)
  fixed-Keeps f h d c k v = h c v

  pub by_ref-IsValid :
      (r : Accumulator) (op : ℕ → StatusRegister → ℕ × StatusRegister)
      → KeepsByte op
      → (c : Cpu W) → IsValid Ok c
      → IsValid Ok (by_ref r op c)
  unfolding by_ref get_acc set_acc
  by_ref-IsValid acc_a op h c (a, b, x, sp, pc, ok) = (h c.a c.sr a, b, x, sp, pc, ok)
  by_ref-IsValid acc_b op h c (a, b, x, sp, pc, ok) = (a, h c.b c.sr b, x, sp, pc, ok)

  pub on_flags-IsValid :
      (f : StatusRegister → StatusRegister) (c : Cpu W) → IsValid Ok c → IsValid Ok (on_flags f c)
  unfolding on_flags
  on_flags-IsValid f c v = v

  pub get_acc-lt : (r : Accumulator) (c : Cpu W) → IsValid Ok c → get_acc r c < 256
  unfolding get_acc
  get_acc-lt acc_a c v = v.0
  get_acc-lt acc_b c v = v.1

  pub get_d-lt : (c : Cpu W) → IsValid Ok c → get_d c < 65536
  unfolding get_d
  get_d-lt c v = bit_or-lt 16 (c.a <<< 8) c.b (omega arith) (omega arith)

  pub set_acc-Takes : (r : Accumulator) → Takes 256 (set_acc r)
  unfolding set_acc
  set_acc-Takes acc_a d c h (a, b, x, sp, pc, ok) = (h, b, x, sp, pc, ok)
  set_acc-Takes acc_b d c h (a, b, x, sp, pc, ok) = (a, h, x, sp, pc, ok)

  pub set_d-IsValid : (d : ℕ) (c : Cpu W) → IsValid Ok c → IsValid Ok (set_d d c)
  unfolding set_d
  set_d-IsValid d c v = ground arith

  pub sub-Takes : (r : Accumulator) → Takes 256 (λ m. by_ref r (λ x. sub x m))
  sub-Takes r d c h v = by_ref-IsValid r (λ x. sub x d) (sub-KeepsByte d) c v

  pub sbc-Takes : (r : Accumulator) → Takes 256 (λ m. by_ref r (λ x. sbc x m))
  sbc-Takes r d c h v = by_ref-IsValid r (λ x. sbc x d) (sbc-KeepsByte d) c v

  pub add-Takes : (r : Accumulator) → Takes 256 (λ m. by_ref r (λ x. add x false m))
  add-Takes r d c h v = by_ref-IsValid r (λ x. add x false d) (add-KeepsByte false d) c v

  pub adc-Takes : (r : Accumulator) → Takes 256 (λ m. by_ref r (λ x. adc x m))
  adc-Takes r d c h v = by_ref-IsValid r (λ x. adc x d) (adc-KeepsByte d) c v

  pub logic-Takes :
      (r : Accumulator) (op : ℕ → ℕ → ℕ) → KeepsBytes op → Takes 256 (λ m. by_ref r (logic m op))
  logic-Takes r op k d c h v = by_ref-IsValid r (logic d op) (logic-KeepsByte d op h k) c v

  pub load-Takes : (r : Accumulator) → Takes 256 (load r)
  unfolding load on_flags
  load-Takes r d c h v = set_acc-Takes r d c h v

  pub compare-Takes : {bound : ℕ} (r : Accumulator) → Takes bound (compare r)
  unfolding compare on_flags
  compare-Takes r d c h v = v

  pub bit_test-Takes : {bound : ℕ} (r : Accumulator) → Takes bound (bit_test r)
  unfolding bit_test on_flags
  bit_test-Takes r d c h v = v

  pub load_d-Takes : Keeps Ok load_d
  unfolding load_d on_flags
  load_d-Takes d c h v = set_d-IsValid d c v

  pub load_sp-Takes : Keeps Ok load_sp
  unfolding load_sp on_flags
  load_sp-Takes d c h v = ground arith

  pub load_x-Takes : Keeps Ok load_x
  unfolding load_x on_flags
  load_x-Takes d c h v = ground arith

  pub compare_x-Takes : Keeps Ok compare_x
  unfolding compare_x on_flags
  compare_x-Takes d c h v = v

  pub subd-Takes : Keeps Ok subd
  unfolding subd
  subd-Takes d c h v = set_d-IsValid (sub16 (get_d c) d) c v

  pub addd-Takes : Keeps Ok addd
  unfolding addd
  addd-Takes d c h v = set_d-IsValid (u16 (get_d c + d)) c v

  pub lsrd-Takes : Keeps Ok lsrd
  unfolding lsrd
  lsrd-Takes d c h v = set_d-IsValid (d >>> 1) c v

  pub asld-Takes : Keeps Ok asld
  unfolding asld
  asld-Takes d c h v = set_d-IsValid (u16 (d <<< 1)) c v

  pub brx-Takes : (b : Bool) → Keeps Ok (brx b)
  unfolding brx
  brx-Takes b d c h v = ground arith

  pub branch-Takes : (condition : StatusRegister → Bool) → Keeps Ok (branch condition)
  unfolding branch
  branch-Takes condition d c h v = brx-Takes (condition c.sr) d c h v

  pub add_z-IsValid : (d : ℕ) (c : Cpu W) → IsValid Ok c → IsValid Ok (add_z d c)
  unfolding add_z
  add_z-IsValid d c v = ground arith

  pub xgdx-IsValid : (c : Cpu W) → IsValid Ok c → IsValid Ok (xgdx c)
  unfolding xgdx
  xgdx-IsValid c v = let d = get_d-lt c v in let s = set_d-IsValid c.x c v in ground arith

  pub mul-IsValid : (c : Cpu W) → IsValid Ok c → IsValid Ok (mul c)
  unfolding mul
  mul-IsValid c v = ground arith

  pub tap-IsValid : (c : Cpu W) → IsValid Ok c → IsValid Ok (tap c)
  unfolding tap
  tap-IsValid c v = v

  pub tpa-IsValid : (c : Cpu W) → IsValid Ok c → IsValid Ok (tpa c)
  unfolding tpa
  tpa-IsValid c (a, b, x, sp, pc, ok) = (as_integer-lt c.sr, b, x, sp, pc, ok)
