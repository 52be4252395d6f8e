-- ===== src/Cpu/Run/Cycles.antt =====
-- The cycles that `Cpu6301::tick` counts, and its end (emulator/cpu6301.cc).
use hd6301_thing.Common.{
  ℕ, zero, suc, ◌+◌, ◌≤◌, ◌≡◌, refl, subst, arith, Bool, true, false, Bool-cases, inl, inr, List,
  [], ◌∷◌, some, all, leb, ltb, ◌&&◌, not, ◌⊎◌,
}
use hd6301_thing.Cpu.State.{Cpu}
use hd6301_thing.Cpu.Access.{fetch, enter_interrupt}
use hd6301_thing.Cpu.Instruction.{Instruction, is_ill, lookup, illegal}
use hd6301_thing.Cpu.Run.{
  Board, instruction_entries, instruction_at, poll, poll_all, run_fetched, run_instruction, Round,
  round, going, returned, tick_loop, tick, TickResult, at_breakpoint,
}

module _ {W : Type 0} where
  abbrev timed : ℕ × Instruction W → Bool
  timed e = leb 1 e.1.cycles && leb e.1.cycles 10

  all-timed-lookup :
      (opcode : ℕ) (es : List (ℕ × Instruction W))
      → all timed es ≡ true
      → (1 ≤ (lookup opcode es).cycles) × ((lookup opcode es).cycles ≤ 10)
  unfolding lookup illegal
  all-timed-lookup opcode [] h = (omega arith, omega arith)
  all-timed-lookup opcode ((o, e) ∷ es) h = let rest = all-timed-lookup opcode es in ground arith

module _ {W : Type 0} (board : Board W) where
  instruction_at-cycles :
      (opcode : ℕ)
      → (1 ≤ (instruction_at board opcode).cycles) × ((instruction_at board opcode).cycles ≤ 10)
  unfolding instruction_at
  instruction_at-cycles opcode = all-timed-lookup opcode (instruction_entries board) refl

  enter_interrupt-masks :
      (vector : ℕ) (c : Cpu W) → (enter_interrupt board.memory vector c).sr.i ≡ true
  unfolding enter_interrupt
  enter_interrupt-masks vector c = refl

  -- A round enters one interrupt at most, since an entry sets the mask.
  poll-once :
      (line : W → Bool) (vector k : ℕ) (s : ℕ × Cpu W)
      → (s.0 ≡ k) ⊎ ((s.0 ≡ k + 9) × (s.1.sr.i ≡ true))
      → ((poll board line vector s).0 ≡ k)
        ⊎ (((poll board line vector s).0 ≡ k + 9) × ((poll board line vector s).1.sr.i ≡ true))
  unfolding poll
  poll-once line vector k (j, c) h = let masks = enter_interrupt-masks vector c in ground arith

  poll_all-once :
      (k : ℕ) (c : Cpu W)
      → ((poll_all board (k, c)).0 ≡ k)
        ⊎ (((poll_all board (k, c)).0 ≡ k + 9) × ((poll_all board (k, c)).1.sr.i ≡ true))
  unfolding poll_all
  poll_all-once k c =
      poll-once board.serial_irq 0xfff0 k _
        (poll-once board.timer_irq 0xfff2 k _ (poll-once board.irq 0xfff8 k (k, c) (inl refl)))

  poll_all-bounds :
      (k : ℕ) (c : Cpu W) → (k ≤ (poll_all board (k, c)).0) × ((poll_all board (k, c)).0 ≤ k + 9)
  poll_all-bounds k c = elim (poll_all-once k c) [
    | inl e ↦ (omega arith, omega arith)
    | inr (e, f) ↦ (omega arith, omega arith)
  ]

  run_fetched-bounds :
      (instruction : Instruction W) (k : ℕ) (c : Cpu W)
      → 1 ≤ instruction.cycles
      → instruction.cycles ≤ 10
      → (suc k ≤ (run_fetched board instruction (k, c)).0)
        × ((run_fetched board instruction (k, c)).0 ≤ k + 10)
  unfolding run_fetched
  run_fetched-bounds instruction k c h1 h2 = elim (Bool-cases (is_ill instruction.mode)) [
    | inl e ↦ rw (e) (omega arith, omega arith)
    | inr e ↦ rw (e) (omega arith, omega arith)
  ]

  run_instruction-bounds :
      (k : ℕ) (c : Cpu W)
      → (suc k ≤ (run_instruction board (k, c)).0) × ((run_instruction board (k, c)).0 ≤ k + 10)
  unfolding run_instruction
  run_instruction-bounds k c =
      let (opcode, c1) = fetch board.memory c in
      let timed = instruction_at-cycles opcode in
      run_fetched-bounds (instruction_at board opcode) k c1 timed.0 timed.1

  -- What one round leaves of the cycles.
  abbrev RoundBounds : Bool → ℕ → Round W → Type 0
  RoundBounds ignore k (returned k' c) =
      (k' ≤ k + 9) × (ignore ≡ false) × (at_breakpoint c.breakpoint c.pc ≡ true)
  RoundBounds ignore k (going k' c) = (suc k ≤ k') × (k' ≤ k + 19)

  round-RoundBounds :
      (ignore : Bool) (k : ℕ) (c : Cpu W) → RoundBounds ignore k (round board ignore (k, c))
  unfolding round
  round-RoundBounds ignore k c =
      let (k1, c1) = poll_all board (k, c) in
      let polled = poll_all-bounds k c in
      let ran = run_instruction-bounds k1 c1 in
      elim (Bool-cases (not ignore && at_breakpoint c1.breakpoint c1.pc)) [
        | inl e ↦ rw (e) (polled.1, ground arith, ground arith)
        | inr e ↦ rw (e) (omega arith, omega arith)
      ]

  -- What `tick` promises of its result: when it stops at a breakpoint, the program counter is there
  -- and breakpoints are not ignored; otherwise the cycles asked for have run; and at most 18 more.
  abbrev pub Ticked : ℕ → Bool → TickResult W → Type 0
  Ticked n ignore r =
      (r.cycles_run ≤ n + 18)
      × (r.breakpoint_hit ≡ false → n ≤ r.cycles_run)
      × (r.breakpoint_hit ≡ true
          → (ignore ≡ false) × (at_breakpoint r.cpu.breakpoint r.cpu.pc ≡ true))

  pub Round-cases :
      (o : Round W)
      → ((s : ℕ × Cpu W) × (o ≡ returned s.0 s.1)) ⊎ ((s : ℕ × Cpu W) × (o ≡ going s.0 s.1))
  Round-cases (returned k c) = inl ((k, c), refl)
  Round-cases (going k c) = inr ((k, c), refl)

  tick_loop-ends :
      (fuel n : ℕ) (ignore : Bool) (k : ℕ) (c : Cpu W)
      → suc n ≤ fuel + k
      → 1 ≤ fuel
      → k ≤ n + 18
      → (r : TickResult W) × (tick_loop board fuel n ignore k c ≡ some r) × Ticked n ignore r
  unfolding tick_loop
  tick_loop-ends zero n ignore k c h1 h h2 = absurd (omega arith)
  tick_loop-ends (suc fuel) n ignore k c h1 h h2 = elim (Bool-cases (ltb k n)) [
    | inr e ↦ rw (tick_loop, e) (_, refl, (h2, λ x. ground arith, λ x. ground arith))
    | inl e ↦ elim (Round-cases (round board ignore (k, c))) [
      | inl ((k', c'), f) ↦
          let b = subst (RoundBounds ignore k) f (round-RoundBounds ignore k c) in
          rw (tick_loop, e, f) (_, refl, (ground arith, λ x. ground arith, λ x. (b.1, b.2)))
      | inr ((k', c'), f) ↦
          let b = subst (RoundBounds ignore k) f (round-RoundBounds ignore k c) in
          rw (tick_loop, e, f)
            (tick_loop-ends fuel n ignore k' c' (omega arith) (ground arith) (ground arith))
    ]
  ]

  -- `tick` always gives a result. At most 18 cycles more than asked for are counted. Unless it
  -- stopped at a breakpoint, at least as many as asked for are; and it stops at a breakpoint only
  -- when breakpoints are not ignored, with the program counter on it.
  pub tick-ends :
      (n : ℕ) (ignore : Bool) (c : Cpu W)
      → (r : TickResult W) × (tick board n ignore c ≡ some r) × Ticked n ignore r
  unfolding tick
  tick-ends n ignore c =
      tick_loop-ends (suc n) n ignore 0 c (omega arith) (omega arith) (omega arith)
