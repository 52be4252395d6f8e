-- ===== src/Cpu/Validity/Access.antt =====
-- Memory access and the stack keep the registers within their types.
use hd6301_thing.Common.{ℕ, ◌+◌, ◌<◌, Bool, true, arith, bit_or-lt, u8, u16, sub16, ◌<<<◌, ◌>>>◌}
use hd6301_thing.Memory
use hd6301_thing.Memory.{AddressSpace}
use hd6301_thing.Cpu.Alu.{StatusRegister, from_integer, as_integer}
use hd6301_thing.Cpu.State.{Cpu}
use hd6301_thing.Cpu.Access.{
  get, get16, set, set16, fetch, fetch16, reset, pul8, pul16, psh8, psh16, rti, bsr, jsr,
  enter_interrupt, mem_op, set_op,
}
use hd6301_thing.Cpu.Interrupts.{as_integer-lt}
use hd6301_thing.Cpu.Validity.{IsByteSpace, IsValid}
use hd6301_thing.Cpu.Validity.Operations.{KeepsByte}

module _ {W : Type 0} (m : AddressSpace W) (Ok : W → Type 0) (space : IsByteSpace m Ok) where
  -- A result below a bound, with a valid processor.
  abbrev pub Gives : ℕ → ℕ × Cpu W → Type 0
  Gives bound r = (r.0 < bound) × IsValid Ok r.1

  pub get-Gives : (p : ℕ) (c : Cpu W) → IsValid Ok c → Gives 256 (get m p c)
  unfolding get
  get-Gives p c (a, b, x, sp, pc, ok) =
      (space.get_byte p c.world ok, (a, b, x, sp, pc, space.get_keeps p c.world ok))

  world_get16 :
      (p : ℕ) (w : W) → Ok w → ((Memory.get16 m p w).0 < 65536) × Ok (Memory.get16 m p w).1
  unfolding Memory.get16
  world_get16 p w ok =
      let h = space.get_byte p w ok in
      let ok1 = space.get_keeps p w ok in
      let w1 = (Memory.get m p w).1 in
      let l = space.get_byte (u16 (p + 1)) w1 ok1 in
      let ok2 = space.get_keeps (u16 (p + 1)) w1 ok1 in
      let lt =
        bit_or-lt 16 ((Memory.get m p w).0 <<< 8) (Memory.get m (u16 (p + 1)) w1).0 (omega arith)
          (omega arith) in
      ground arith

  pub get16-Gives : (p : ℕ) (c : Cpu W) → IsValid Ok c → Gives 65536 (get16 m p c)
  unfolding get16
  get16-Gives p c (a, b, x, sp, pc, ok) =
      let r = world_get16 p c.world ok in (r.0, (a, b, x, sp, pc, r.1))

  pub set-IsValid : (p v : ℕ) (c : Cpu W) → v < 256 → IsValid Ok c → IsValid Ok (set m p v c)
  unfolding set
  set-IsValid p v c h (a, b, x, sp, pc, ok) = (a, b, x, sp, pc, space.set_keeps p v c.world h ok)

  pub set16-IsValid : (p v : ℕ) (c : Cpu W) → IsValid Ok c → IsValid Ok (set16 m p v c)
  unfolding set16 Memory.set16
  set16-IsValid p v c (a, b, x, sp, pc, ok) =
      let ok1 = space.set_keeps p (u8 (v >>> 8)) c.world (omega arith) ok in
      let ok2 = space.set_keeps (u16 (p + 1)) (u8 v) _ (omega arith) ok1 in ground arith

  pub fetch-Gives : (c : Cpu W) → IsValid Ok c → Gives 256 (fetch m c)
  unfolding fetch
  fetch-Gives c v = let r = get-Gives c.pc c v in ground arith

  pub fetch16-Gives : (c : Cpu W) → IsValid Ok c → Gives 65536 (fetch16 m c)
  unfolding fetch16
  fetch16-Gives c v = let r = get16-Gives c.pc c v in ground arith

  pub reset-IsValid : (c : Cpu W) → IsValid Ok c → IsValid Ok (reset m c)
  unfolding reset
  reset-IsValid c v = let r = get16-Gives 0xfffe c v in ground arith

  pub pul8-Gives : (c : Cpu W) → IsValid Ok c → Gives 256 (pul8 m c)
  unfolding pul8
  pul8-Gives c v = get-Gives (u16 (c.sp + 1)) (record c { sp = u16 (c.sp + 1) }) (ground arith)

  pub pul16-Gives : (c : Cpu W) → IsValid Ok c → Gives 65536 (pul16 m c)
  unfolding pul16
  pul16-Gives c v =
      get16-Gives (sub16 (u16 (c.sp + 2)) 1) (record c { sp = u16 (c.sp + 2) }) (ground arith)

  pub psh8-IsValid : (x : ℕ) (c : Cpu W) → x < 256 → IsValid Ok c → IsValid Ok (psh8 m x c)
  unfolding psh8
  psh8-IsValid x c h v = let r = set-IsValid c.sp x c h v in ground arith

  pub psh16-IsValid : (x : ℕ) (c : Cpu W) → IsValid Ok c → IsValid Ok (psh16 m x c)
  unfolding psh16
  psh16-IsValid x c v =
      let r1 = set-IsValid c.sp (u8 x) c (omega arith) v in
      let r2 = set-IsValid (sub16 c.sp 1) (u8 (x >>> 8)) (set m c.sp (u8 x) c) (omega arith) r1 in
      ground arith

  pub bsr-IsValid : (offset : ℕ) (c : Cpu W) → IsValid Ok c → IsValid Ok (bsr m offset c)
  unfolding bsr
  bsr-IsValid offset c v = let r = psh16-IsValid c.pc c v in ground arith

  pub jsr-IsValid : (p : ℕ) (c : Cpu W) → p < 65536 → IsValid Ok c → IsValid Ok (jsr m p c)
  unfolding jsr
  jsr-IsValid p c h v = let r = psh16-IsValid c.pc c v in ground arith

  pub rti-IsValid : (c : Cpu W) → IsValid Ok c → IsValid Ok (rti m c)
  unfolding rti
  rti-IsValid c v =
      let r1 = pul8-Gives c v in
      let c1 = record ((pul8 m c).1) { sr = from_integer (pul8 m c).0 } in
      let r2 = pul8-Gives c1 r1.1 in
      let c2 = record ((pul8 m c1).1) { b = (pul8 m c1).0 } in
      let (a2, b2, x2, sp2, pc2, ok2) = r2.1 in
      let r3 = pul8-Gives c2 (a2, r2.0, x2, sp2, pc2, ok2) in
      let c3 = record ((pul8 m c2).1) { a = (pul8 m c2).0 } in
      let (a3, b3, x3, sp3, pc3, ok3) = r3.1 in
      let r4 = pul16-Gives c3 (r3.0, b3, x3, sp3, pc3, ok3) in
      let c4 = record ((pul16 m c3).1) { x = (pul16 m c3).0 } in
      let (a4, b4, x4, sp4, pc4, ok4) = r4.1 in
      let r5 = pul16-Gives c4 (a4, b4, r4.0, sp4, pc4, ok4) in
      let (a5, b5, x5, sp5, pc5, ok5) = r5.1 in (a5, b5, x5, sp5, r5.0, ok5)

  pub enter_interrupt-IsValid :
      (p : ℕ) (c : Cpu W) → IsValid Ok c → IsValid Ok (enter_interrupt m p c)
  unfolding enter_interrupt
  enter_interrupt-IsValid p c v =
      let c1 = psh16 m c.pc c in
      let v1 = psh16-IsValid c.pc c v in
      let c2 = psh16 m c1.x c1 in
      let v2 = psh16-IsValid c1.x c1 v1 in
      let c3 = psh8 m c2.a c2 in
      let v3 = psh8-IsValid c2.a c2 v2.0 v2 in
      let c4 = psh8 m c3.b c3 in
      let v4 = psh8-IsValid c3.b c3 v3.1 v3 in
      let c5 = psh8 m (as_integer c4.sr) c4 in
      let v5 = psh8-IsValid (as_integer c4.sr) c4 (as_integer-lt c4.sr) v4 in
      let r = get16-Gives p (record c5 { sr = record (c5.sr) { i = true } }) v5 in
      let (a, b, x, sp, pc, ok) = r.1 in (a, b, x, sp, r.0, ok)

  pub mem_op-IsValid :
      (p : ℕ) (op : ℕ → StatusRegister → ℕ × StatusRegister) (do_set : Bool) (c : Cpu W)
      → KeepsByte op
      → IsValid Ok c
      → IsValid Ok (mem_op m p op do_set c)
  unfolding mem_op
  mem_op-IsValid p op do_set c h v =
      let r = get-Gives p c v in
      let (x, c1) = get m p c in
      let c2 = record c1 { sr = (op x c1.sr).1 } in
      let written = set-IsValid p (op x c1.sr).0 c2 (h x c1.sr r.0) r.1 in ground arith

  pub set_op-IsValid :
      (u p : ℕ) (op : ℕ → StatusRegister → ℕ × StatusRegister) (c : Cpu W)
      → u < 256
      → KeepsByte op
      → IsValid Ok c
      → IsValid Ok (set_op m u p op c)
  unfolding set_op
  set_op-IsValid u p op c hu h v =
      set-IsValid p (op u c.sr).0 (record c { sr = (op u c.sr).1 }) (h u c.sr hu) v
