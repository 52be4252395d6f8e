-- ===== src/Cpu/Run/Keeps.antt =====
-- The registers of the model stay within the types of the source in `Cpu6301::tick`
-- (emulator/cpu6301.cc).
use hd6301_thing.Common.{
  ℕ, zero, suc, ◌≡◌, subst, arith, Bool, Bool-cases, inl, inr, List, [], ◌∷◌, some, none, Option,
  All, All-flatten, ◌▹◌, ltb, ◌&&◌, not, ◌==◌, bit_or-lt, ◌<<<◌,
}
use hd6301_thing.Cpu.State.{Cpu}
use hd6301_thing.Cpu.Access.{fetch}
use hd6301_thing.Cpu.Instruction.{
  Instruction, AddressingMode, imm, im2, aca, acb, acd, dir, ext, idx, imp, rel, ill, is_ill,
  lookup, illegal, operand,
}
use hd6301_thing.Cpu.Run.{
  Board, instruction_entries, instruction_tables, instruction_at, run_callbacks, tick_cycle,
  run_cycles, poll, poll_all, run_fetched, run_instruction, Round, round, going, returned,
  tick_loop, tick, TickResult, at_breakpoint,
}
use hd6301_thing.Cpu.Run.Cycles.{Round-cases, tick-ends}
use hd6301_thing.Cpu.Validity.{IsByteSpace, IsValid, Keep, Keeps}
use hd6301_thing.Cpu.Validity.Access.{
  Gives, fetch-Gives, fetch16-Gives, reset-IsValid, enter_interrupt-IsValid,
}
use hd6301_thing.Cpu.Validity.Forms.{get_d-lt}
use hd6301_thing.Cpu.Validity.Table.Inherent.{
  register_entries-Keeps, branch_entries-Keeps, stack_entries-Keeps,
}
use hd6301_thing.Cpu.Validity.Table.Modify.{
  complement_entries-Keeps, shift_entries-Keeps, count_entries-Keeps,
}
use hd6301_thing.Cpu.Validity.Table.Arithmetic.{
  subtract_entries-Keeps, wide_arithmetic_entries-Keeps,
}
use hd6301_thing.Cpu.Validity.Table.Accumulator.{
  and_entries-Keeps, transfer_entries-Keeps, eor_adc_entries-Keeps, ora_add_entries-Keeps,
}
use hd6301_thing.Cpu.Validity.Table.Wide.{load_entries-Keeps, store_entries-Keeps}

-- What ticking the devices of a board leaves in order.
pub record IsSound {W : Type 0} (board : Board W) (Ok : W → Type 0) : Type 0 where
  pub space : IsByteSpace board.memory Ok
  pub timer_keeps : (w : W) → Ok w → Ok (board.timer_tick w)
  pub serial_keeps : (w : W) → Ok w → Ok (board.serial_tick w)
  pub callbacks_keep : All (λ f. (w : W) → Ok w → Ok (f w)) board.tick_callbacks

module _ {W : Type 0} (board : Board W) (Ok : W → Type 0) (sound : IsSound board Ok) where
  instruction_entries-Keeps : All (Keep Ok) (instruction_entries board)
  instruction_entries-Keeps =
      let m = board.memory in
      let sp = sound.space in
      All-flatten (Keep Ok) (instruction_tables board) (
        register_entries-Keeps m Ok sp
        ▹ branch_entries-Keeps m Ok sp
        ▹ stack_entries-Keeps m Ok sp
        ▹ complement_entries-Keeps m Ok sp
        ▹ shift_entries-Keeps m Ok sp
        ▹ count_entries-Keeps m Ok sp
        ▹ subtract_entries-Keeps m Ok sp
        ▹ wide_arithmetic_entries-Keeps m Ok sp
        ▹ and_entries-Keeps m Ok sp
        ▹ transfer_entries-Keeps m Ok sp
        ▹ eor_adc_entries-Keeps m Ok sp
        ▹ ora_add_entries-Keeps m Ok sp
        ▹ load_entries-Keeps m Ok sp
        ▹ store_entries-Keeps m Ok sp
        ▹ tt)

  lookup-Keeps :
      (opcode : ℕ) (es : List (ℕ × Instruction W))
      → All (Keep Ok) es
      → Keeps Ok (lookup opcode es).exec
  unfolding lookup illegal
  lookup-Keeps opcode [] h d c k v = v
  lookup-Keeps opcode ((o, e) ∷ es) h d c k v = elim (Bool-cases (o == opcode)) [
    | inl e ↦ rw (e) (h.0 d c k v)
    | inr e ↦ rw (e) (lookup-Keeps opcode es h.1 d c k v)
  ]

  instruction_at-Keeps : (opcode : ℕ) → Keeps Ok (instruction_at board opcode).exec
  unfolding instruction_at
  instruction_at-Keeps opcode =
      lookup-Keeps opcode (instruction_entries board) instruction_entries-Keeps

  run_callbacks-Ok :
      (fs : List (W → W)) (w : W)
      → All (λ f. (w : W) → Ok w → Ok (f w)) fs
      → Ok w
      → Ok (run_callbacks fs w)
  unfolding run_callbacks
  run_callbacks-Ok [] w h ok = ok
  run_callbacks-Ok (f ∷ fs) w h ok = run_callbacks-Ok fs (f w) h.1 (h.0 w ok)

  run_cycles-Ok : (n : ℕ) (w : W) → Ok w → Ok (run_cycles board n w)
  unfolding run_cycles tick_cycle
  run_cycles-Ok zero w ok = ok
  run_cycles-Ok (suc n) w ok = run_cycles-Ok n _ (
      run_callbacks-Ok board.tick_callbacks _ sound.callbacks_keep
        (sound.serial_keeps _ (sound.timer_keeps w ok)))

  operand-Gives :
      (mode : AddressingMode) (c : Cpu W)
      → IsValid Ok c
      → Gives board.memory Ok sound.space 65536 (operand board.memory mode c)
  unfolding operand
  operand-Gives imm c v = let r = fetch-Gives board.memory Ok sound.space c v in (omega arith, r.1)
  operand-Gives im2 c v =
      let r1 = fetch-Gives board.memory Ok sound.space c v in
      let (h, c1) = fetch board.memory c in
      let r2 = fetch-Gives board.memory Ok sound.space c1 r1.1 in
      (bit_or-lt 16 (h <<< 8) (fetch board.memory c1).0 (omega arith) (omega arith), r2.1)
  operand-Gives aca c v = (omega arith, v)
  operand-Gives acb c v = (omega arith, v)
  operand-Gives acd c v = (get_d-lt Ok c v, v)
  operand-Gives dir c v = let r = fetch-Gives board.memory Ok sound.space c v in (omega arith, r.1)
  operand-Gives ext c v = fetch16-Gives board.memory Ok sound.space c v
  operand-Gives idx c v = let r = fetch-Gives board.memory Ok sound.space c v in (omega arith, r.1)
  operand-Gives imp c v = (omega arith, v)
  operand-Gives rel c v = let r = fetch-Gives board.memory Ok sound.space c v in (omega arith, r.1)
  operand-Gives ill c v = (omega arith, v)

  run_fetched-IsValid :
      (e : Instruction W) (k : ℕ) (c : Cpu W)
      → Keeps Ok e.exec
      → IsValid Ok c
      → IsValid Ok (run_fetched board e (k, c)).1
  unfolding run_fetched
  run_fetched-IsValid e k c h v = elim (Bool-cases (is_ill e.mode)) [
    | inl q ↦ rw (q) (reset-IsValid board.memory Ok sound.space c v)
    | inr q ↦
        let (a, b, x, sp, pc, ok) = v in
        let c1 = record c { world = run_cycles board e.cycles c.world } in
        let r = operand-Gives e.mode c1 (a, b, x, sp, pc, run_cycles-Ok e.cycles c.world ok) in
        rw (q) (h _ _ r.0 r.1)
  ]

  run_instruction-IsValid :
      (k : ℕ) (c : Cpu W) → IsValid Ok c → IsValid Ok (run_instruction board (k, c)).1
  unfolding run_instruction
  run_instruction-IsValid k c v =
      let r = fetch-Gives board.memory Ok sound.space c v in
      let (opcode, c1) = fetch board.memory c in
      run_fetched-IsValid (instruction_at board opcode) k c1 (instruction_at-Keeps opcode) r.1

  poll-IsValid :
      (line : W → Bool) (vector : ℕ) (s : ℕ × Cpu W)
      → IsValid Ok s.1
      → IsValid Ok (poll board line vector s).1
  unfolding poll
  poll-IsValid line vector (k, c) v = elim (Bool-cases (line c.world && not c.sr.i)) [
    | inl q ↦ rw (q) (enter_interrupt-IsValid board.memory Ok sound.space vector c v)
    | inr q ↦ rw (q) v
  ]

  poll_all-IsValid : (k : ℕ) (c : Cpu W) → IsValid Ok c → IsValid Ok (poll_all board (k, c)).1
  unfolding poll_all
  poll_all-IsValid k c v =
      poll-IsValid board.serial_irq 0xfff0 _
        (poll-IsValid board.timer_irq 0xfff2 _ (poll-IsValid board.irq 0xfff8 (k, c) v))

  abbrev RoundValid : Round W → Type 0
  RoundValid (returned k c) = IsValid Ok c
  RoundValid (going k c) = IsValid Ok c

  round-RoundValid :
      (ignore : Bool) (k : ℕ) (c : Cpu W) → IsValid Ok c → RoundValid (round board ignore (k, c))
  unfolding round
  round-RoundValid ignore k c v =
      let (k1, c1) = poll_all board (k, c) in
      let polled = poll_all-IsValid k c v in
      elim (Bool-cases (not ignore && at_breakpoint c1.breakpoint c1.pc)) [
        | inl e ↦ rw (e) polled
        | inr e ↦ rw (e) (run_instruction-IsValid k1 c1 polled)
      ]

  abbrev ResultValid : Option (TickResult W) → Type 0
  ResultValid none = Unit
  ResultValid (some r) = IsValid Ok r.cpu

  tick_loop-ResultValid :
      (fuel n : ℕ) (ignore : Bool) (k : ℕ) (c : Cpu W)
      → IsValid Ok c
      → ResultValid (tick_loop board fuel n ignore k c)
  unfolding tick_loop
  tick_loop-ResultValid zero n ignore k c v = tt
  tick_loop-ResultValid (suc fuel) n ignore k c v = elim (Bool-cases (ltb k n)) [
    | inr q ↦ rw (tick_loop, q) v
    | inl q ↦ elim (Round-cases board (round board ignore (k, c))) [
      | inl ((k', c'), f) ↦
          rw (tick_loop, q, f) (subst RoundValid f (round-RoundValid ignore k c v))
      | inr ((k', c'), f) ↦
          rw (tick_loop, q, f)
            (tick_loop-ResultValid fuel n ignore k' c'
              (subst RoundValid f (round-RoundValid ignore k c v)))
    ]
  ]

  -- On a board whose reads give bytes and whose devices keep `Ok`, a run of `tick` from registers
  -- within their types gives a result, and its registers are within their types, with `Ok` still
  -- true of the devices: no instruction of the table, no interrupt entry and no reset breaks this.
  pub tick-IsValid :
      (n : ℕ) (ignore : Bool) (c : Cpu W)
      → IsValid Ok c
      → (r : TickResult W) × (tick board n ignore c ≡ some r) × IsValid Ok r.cpu
  unfolding tick
  tick-IsValid n ignore c v =
      let (r, e, rest) = tick-ends board n ignore c in
      (r, e, subst ResultValid e (tick_loop-ResultValid (suc n) n ignore 0 c v))
