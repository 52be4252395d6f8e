-- ===== src/Cpu/Interrupts.antt =====
-- Interrupt entry and `rti` (emulator/cpu6301.cc, `enter_interrupt` and `rti`).
use hd6301_thing.Common.{
  ℕ, suc, ◌+◌, ◌-◌, ◌*◌, ◌/◌, ◌≤◌, ◌<◌, ◌≡◌, sym, ◌∙◌, ap, List, [], ◌∷◌, arith, length, u8, sub16,
  true,
}
use hd6301_thing.Memory
use hd6301_thing.Memory.{AddressSpace}
use hd6301_thing.Memory.Region.{IsRam, Bytes, Bytes-push, get16_lem}
use hd6301_thing.Cpu.Alu.{StatusRegister, from_integer, as_integer}
use hd6301_thing.Cpu.State.{Cpu}
use hd6301_thing.Cpu.Access.{enter_interrupt, rti}
use hd6301_thing.Cpu.Shifts.{from_integer-as_integer}

sub16_small : (a b : ℕ) → a < 65536 → b ≤ a → sub16 a b ≡ a - b
sub16_small a b h1 h2 = omega arith

module _ {W : Type 0} (m : AddressSpace W) where
  -- The world after the seven writes of an interrupt entry.
  abbrev pub stacked : Cpu W → W
  stacked c = Memory.set m (c.sp - 6) (as_integer c.sr) (
      Memory.set m (c.sp - 5) c.b (
        Memory.set m (c.sp - 4) c.a (
          Memory.set m (c.sp - 3) (u8 (c.x / 256)) (
            Memory.set m (c.sp - 2) (u8 c.x)
              (Memory.set m (c.sp - 1) (u8 (c.pc / 256)) (Memory.set m c.sp (u8 c.pc) c.world))))))

  enter_interrupt_lem :
      (vector : ℕ) (c : Cpu W)
      → c.sp < 65536
      → 7 ≤ c.sp
      → enter_interrupt m vector c ≡ record c {
        sp = c.sp - 7;
        pc = (Memory.get16 m vector (stacked c)).0;
        sr = record (c.sr) { i = true };
        world = (Memory.get16 m vector (stacked c)).1;
      }
  unfolding enter_interrupt
  enter_interrupt_lem vector c h1 h2 =
      rw
        (
          sub16_small c.sp 1 h1 (omega arith),
          sub16_small c.sp 2 h1 (omega arith),
          sub16_small (c.sp - 2) 1 (omega arith) (omega arith),
          sub16_small (c.sp - 2) 2 (omega arith) (omega arith),
        )
        (ground arith)

module _ {W : Type 0} (m : AddressSpace W) where
  -- `rti` over seven bytes that reads leave in place.
  rti_lem :
      (c : Cpu W) (s b a xh xl ph pl : ℕ)
      → c.sp + 7 < 65536
      → xh < 256
      → xl < 256
      → ph < 256
      → pl < 256
      → Memory.get m (suc c.sp) c.world ≡ (s, c.world)
      → Memory.get m (suc (suc c.sp)) c.world ≡ (b, c.world)
      → Memory.get m (suc (suc (suc c.sp))) c.world ≡ (a, c.world)
      → Memory.get16 m (suc (suc (suc (suc c.sp)))) c.world ≡ (xh * 256 + xl, c.world)
      → Memory.get16 m (suc (suc (suc (suc (suc (suc c.sp)))))) c.world ≡ (ph * 256 + pl, c.world)
      → rti m c ≡ record c {
        a = a;
        b = b;
        x = xh * 256 + xl;
        sp = c.sp + 7;
        pc = ph * 256 + pl;
        sr = from_integer s;
      }
  unfolding rti
  rti_lem c s b a xh xl ph pl h1 h2 h3 h4 h5 e1 e2 e3 e4 e5 = ground arith

pub as_integer-lt : (s : StatusRegister) → as_integer s < 256
unfolding as_integer
as_integer-lt s = ground arith

module _ {W : Type 0} (m : AddressSpace W) (Ok : W → Type 0) (lo hi : ℕ) (ram : IsRam m Ok lo hi)
    (top : hi < 65536) where
  -- The same seven writes, by the address of the last.
  abbrev write_at : ℕ → ℕ → W → W
  write_at = Memory.set m

  abbrev seven : Cpu W → ℕ → W
  seven c p = write_at p (as_integer c.sr) (
      write_at (suc p) c.b (
        write_at (suc (suc p)) c.a (
          write_at (suc (suc (suc p))) (u8 (c.x / 256)) (
            write_at (suc (suc (suc (suc p)))) (u8 c.x) (
              write_at (suc (suc (suc (suc (suc p))))) (u8 (c.pc / 256))
                (write_at (suc (suc (suc (suc (suc (suc p)))))) (u8 c.pc) c.world))))))

  stacked-eq-seven : (c : Cpu W) → 7 ≤ c.sp → stacked m c ≡ seven c (suc (c.sp - 7))
  stacked-eq-seven c h = ground arith

  -- A written byte extends the run, and the world stays good.
  push_good :
      (w : W) (p v : ℕ) (vs : List ℕ)
      → v < 256
      → lo ≤ p
      → suc p + length vs ≤ suc hi
      → Ok w × Bytes m Ok lo hi ram w (suc p) vs
      → Ok (write_at p v w) × Bytes m Ok lo hi ram (write_at p v w) p (v ∷ vs)
  push_good w p v vs hv h1 h2 (ok, b) = (
    ram.write_keeps p v w h1 (omega arith) hv ok,
    Bytes-push m Ok lo hi ram w p v vs ok hv h1 h2 b,
  )

  seven-Bytes :
      (c : Cpu W) (p : ℕ)
      → c.a < 256
      → c.b < 256
      → lo ≤ p
      → p + 6 ≤ hi
      → Ok c.world
      → Ok (seven c p)
        × Bytes m Ok lo hi ram
            (seven c p)
            p
            (as_integer c.sr ∷ c.b ∷ c.a ∷ u8 (c.x / 256) ∷ u8 c.x ∷ u8 (c.pc / 256) ∷ u8 c.pc ∷ [])
  seven-Bytes c p ha hb h1 h2 ok =
      push_good _ _ _ (c.b ∷ c.a ∷ u8 (c.x / 256) ∷ u8 c.x ∷ u8 (c.pc / 256) ∷ u8 c.pc ∷ [])
        (as_integer-lt c.sr) (omega arith) (omega arith)
        (push_good _ _ _ (c.a ∷ u8 (c.x / 256) ∷ u8 c.x ∷ u8 (c.pc / 256) ∷ u8 c.pc ∷ []) hb
          (omega arith) (omega arith)
          (push_good _ _ _ (u8 (c.x / 256) ∷ u8 c.x ∷ u8 (c.pc / 256) ∷ u8 c.pc ∷ []) ha
            (omega arith) (omega arith)
            (push_good _ _ _ (u8 c.x ∷ u8 (c.pc / 256) ∷ u8 c.pc ∷ []) (omega arith) (omega arith)
              (omega arith)
              (push_good _ _ _ (u8 (c.pc / 256) ∷ u8 c.pc ∷ []) (omega arith) (omega arith)
                (omega arith)
                (push_good _ _ _ (u8 c.pc ∷ []) (omega arith) (omega arith) (omega arith)
                  (push_good _ _ _ [] (omega arith) (omega arith) (omega arith) (ok, tt)))))))

  reads :
      (w : W) (p v : ℕ)
      → lo ≤ p
      → p ≤ hi
      → Ok w
      → (Memory.get m p w).0 ≡ v
      → Memory.get m p w ≡ (v, w)
  reads w p v h1 h2 ok e = λ i. (e i, ram.read_keeps p w h1 h2 ok i)

  reads_word :
      (w : W) (p high low : ℕ)
      → lo ≤ p
      → suc p ≤ hi
      → high < 256
      → low < 256
      → Ok w
      → (Memory.get m p w).0 ≡ high
      → (Memory.get m (suc p) w).0 ≡ low
      → Memory.get16 m p w ≡ (high * 256 + low, w)
  reads_word w p high low h1 h2 hh hl ok e1 e2 =
      get16_lem m p high low w (omega arith) hh hl (reads w p high h1 (omega arith) ok e1)
        (reads w (suc p) low (omega arith) h2 ok e2)

  word_bytes : (x : ℕ) → x < 65536 → u8 (x / 256) * 256 + u8 x ≡ x
  word_bytes x h = omega arith

  -- `rti` after the seven writes, with the stack pointer just below them.
  rti-seven :
      (c : Cpu W) (q pc' : ℕ) (s' : StatusRegister)
      → c.a < 256
      → c.b < 256
      → c.x < 65536
      → c.pc < 65536
      → lo ≤ suc q
      → q + 7 ≤ hi
      → c.sp ≡ q + 7
      → Ok c.world
      → rti m (record c { sp = q; pc = pc'; sr = s'; world = seven c (suc q) })
        ≡ record c { world = seven c (suc q) }
  rti-seven c q pc' s' ha hb hx hpc h1 h2 hsp ok =
      let w = seven c (suc q) in
      let (good, run) = seven-Bytes c (suc q) ha hb h1 (omega arith) ok in
      let c' = record c { sp = q; pc = pc'; sr = s'; world = w } in
      rti_lem m c' (as_integer c.sr) c.b c.a (u8 (c.x / 256)) (u8 c.x) (u8 (c.pc / 256)) (u8 c.pc)
        (omega arith) (omega arith) (omega arith) (omega arith) (omega arith)
        (reads w (suc q) _ (omega arith) (omega arith) good run.0)
        (reads w (suc (suc q)) _ (omega arith) (omega arith) good run.1.0)
        (reads w (suc (suc (suc q))) _ (omega arith) (omega arith) good run.1.1.0)
        (reads_word w (suc (suc (suc (suc q)))) _ _ (omega arith) (omega arith) (omega arith)
          (omega arith) good run.1.1.1.0 run.1.1.1.1.0)
        (reads_word w (suc (suc (suc (suc (suc (suc q)))))) _ _ (omega arith) (omega arith)
          (omega arith) (omega arith) good run.1.1.1.1.1.0 run.1.1.1.1.1.1.0)
      ∙ (λ i. record c {
        x = word_bytes c.x hx i;
        sp = sym hsp i;
        pc = word_bytes c.pc hpc i;
        sr = from_integer-as_integer c.sr i;
        world = w;
      })

  -- On a stack with room for seven bytes, and with a vector whose reads have no effect, `rti`
  -- undoes the entry into an interrupt: every register, the flags and the breakpoint are as before,
  -- and only the stacked bytes of the world differ.
  pub rti-enter_interrupt :
      (vector : ℕ) (c : Cpu W)
      → c.a < 256
      → c.b < 256
      → c.x < 65536
      → c.pc < 65536
      → lo + 6 ≤ c.sp
      → c.sp ≤ hi
      → 7 ≤ c.sp
      → Ok c.world
      → ((w : W) → (Memory.get16 m vector w).1 ≡ w)
      → rti m (enter_interrupt m vector c) ≡ record c { world = stacked m c }
  rti-enter_interrupt vector c ha hb hx hpc h1 h2 h3 ok quiet =
      ap (rti m) (enter_interrupt_lem m vector c (omega arith) h3)
      ∙ rw (quiet (stacked m c), stacked-eq-seven c h3)
          (rti-seven c (c.sp - 7) _ _ ha hb hx hpc (omega arith) (omega arith) (omega arith) ok)
