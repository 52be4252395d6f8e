-- ===== src/Machine/Pace.antt =====
-- How many cycles the loop runs in a time (emulator/hd6301_thing.cc), with `tick` of the processor
-- (emulator/cpu6301.cc).
use hd6301_thing.Common.{
  ℕ, zero, suc, ◌+◌, ◌-◌, ◌*◌, ◌≤◌, ◌≡◌, refl, sym, ap, ◌∙◌, arith, Bool, true, false, not, subst,
  Bool-cases, inl, inr, Option, none, some,
}
use hd6301_thing.Cpu.State.{Cpu}
use hd6301_thing.Cpu.Run.{Board, tick, TickResult}
use hd6301_thing.Cpu.Run.Cycles.{tick-ends}
use hd6301_thing.Machine.{minus, less, at_least_none, Machine, millisecond, milliseconds}

-- What is asked for after a millisecond of `t` cycles in which `c` were run.
asked_next : (t c : ℕ) → at_least_none (less t (minus c t)) ≡ t + t - c
unfolding less minus
asked_next t c = ground arith

module _ {C : Type 0} (tick : ℕ → C → ℕ × Bool × C) where
  -- The cycles that the next call of `tick` is asked for, and those that it runs over.
  abbrev pub asked : Machine C → ℕ
  asked m = at_least_none (less m.ticks_per_ms m.extra_ticks)

  abbrev pub overrun : Machine C → ℕ
  overrun m = (tick (asked m) m.cpu).0 - asked m

  -- What `pairs` times two milliseconds run over their time: the second call of a pair over what it
  -- is asked for, and the first over the time of both.
  abbrev pub overruns : ℕ → Machine C → ℕ
  overruns zero m = 0
  overruns (suc pairs) m =
      let (c1, m1) = millisecond tick m in
      let (c2, m2) = millisecond tick m1 in
      c1 - (m.ticks_per_ms + m.ticks_per_ms) + overrun m1 + overruns pairs m2

  -- A call that does not stop at a breakpoint runs what it is asked for.
  module _ (ends : (n : ℕ) (c : C) → (tick n c).1 ≡ false → n ≤ (tick n c).0) where
    -- A machine that still runs after a millisecond.
    millisecond_lem :
        (m : Machine C)
        → (millisecond tick m).1.cpu_running ≡ true
        → let (c, m') = millisecond tick m in
          (m.cpu_running ≡ true)
          × (c ≡ asked m + overrun m)
          × (m'.extra_ticks ≡ minus c m.ticks_per_ms)
          × (m'.ticks_per_ms ≡ m.ticks_per_ms)
    unfolding millisecond
    millisecond_lem m h = elim (Bool-cases m.cpu_running) [
      | inl running ↦
          let le = ends (asked m) m.cpu (not_hit (not_stopped running h)) in
          rw (running) (refl, refill _ _ le, refl, refl)
      | inr stopped ↦ absurd (was_stopped stopped h)
    ]
      where
        not_hit : {b : Bool} → not b ≡ true → b ≡ false
        not_hit e = ground arith

        refill : (n k : ℕ) → k ≤ n → n ≡ k + (n - k)
        refill n k h = omega arith

        not_stopped :
            m.cpu_running ≡ true
            → (millisecond tick m).1.cpu_running ≡ true
            → not (tick (asked m) m.cpu).1 ≡ true
        not_stopped e h = ground arith

        was_stopped : m.cpu_running ≡ false → (millisecond tick m).1.cpu_running ≡ true → ⊥
        was_stopped e h = ground arith

    -- A machine that still runs at the end ran all the time.
    still_running :
        (n : ℕ) (m : Machine C)
        → (milliseconds tick n m).1.cpu_running ≡ true
        → m.cpu_running ≡ true
    unfolding milliseconds
    still_running zero m h = h
    still_running (suc n) m h = (millisecond_lem m (still_running n (millisecond tick m).1 h)).0

    overruns_lem :
        (pairs : ℕ) (m : Machine C)
        → (milliseconds tick (pairs + pairs) m).1.cpu_running ≡ true
        → (milliseconds tick (pairs + pairs) m).0
          ≡ (pairs + pairs) * m.ticks_per_ms + overruns pairs m
    unfolding milliseconds
    overruns_lem zero m h = omega arith
    overruns_lem (suc pairs) m h =
        let h2 = subst (λ k. (milliseconds tick k m).1.cpu_running ≡ true) (two_more pairs) h in
        let (c1, m1) = millisecond tick m in
        let (c2, m2) = millisecond tick m1 in
        let running2 = still_running (pairs + pairs) m2 h2 in
        let second = millisecond_lem m1 running2 in
        let first = millisecond_lem m second.0 in
        let t = m.ticks_per_ms in
        let again =
          ap (λ (k : ℕ). at_least_none (less k m1.extra_ticks)) first.3
          ∙ ap (λ e. at_least_none (less t e)) first.2
          ∙ asked_next t c1 in
        let same = second.3 ∙ first.3 in
        ap (λ n. (milliseconds tick n m).0) (two_more pairs)
        ∙ ap (λ (n : ℕ). c1 + n)
            (ap (λ (n : ℕ). n + (milliseconds tick (pairs + pairs) m2).0)
              (second.1 ∙ ap (λ (n : ℕ). n + overrun m1) again))
        ∙ ap (λ (n : ℕ). c1 + (t + t - c1 + overrun m1 + n))
            (overruns_lem pairs m2 h2
              ∙ ap (λ (k : ℕ). (pairs + pairs) * k + overruns pairs m2) same)
        ∙ total c1 t (overrun m1) ((pairs + pairs) * t) (overruns pairs m2)
        ∙ ap (λ (n : ℕ). n + (c1 - (t + t) + overrun m1 + overruns pairs m2)) (pair_more pairs t)
      where
        two_more : (n : ℕ) → suc n + suc n ≡ suc (suc (n + n))
        two_more n = omega arith

        total : (c t o k r : ℕ) → c + (t + t - c + o + (k + r)) ≡ t + t + k + (c - (t + t) + o + r)
        total c t o k r = omega arith

        pair_more : (n t : ℕ) → t + t + (n + n) * t ≡ (suc n + suc n) * t
        pair_more n t = omega arith

module _ {W : Type 0} (board : Board W) where
  -- The result of `Cpu6301::tick`, which always has one.
  abbrev result_of : Option (TickResult W) → Cpu W → ℕ × Bool × Cpu W
  result_of none c = (0, false, c)
  result_of (some r) c = (r.cycles_run, r.breakpoint_hit, r.cpu)

  abbrev pub cpu_tick : ℕ → Cpu W → ℕ × Bool × Cpu W
  cpu_tick n c = result_of (tick board n false c) c

  cpu_tick-ends : (n : ℕ) (c : Cpu W) → (cpu_tick n c).1 ≡ false → n ≤ (cpu_tick n c).0
  cpu_tick-ends n c h =
      let (r, e, ticked) = tick-ends board n false c in
      subst (λ (o : Option (TickResult W)). n ≤ (result_of o c).0) (sym e)
        (ticked.1 (ap (λ (o : Option (TickResult W)). (result_of o c).1) (sym e) ∙ h))

  -- A machine that still runs after a number of times two milliseconds, with the processor that it
  -- has, ran the cycles of that time, and over them what in each two milliseconds the second call of
  -- `tick` ran over the cycles that it was asked for, and the first over those of both.
  pub milliseconds_lem :
      (pairs : ℕ) (m : Machine (Cpu W))
      → (milliseconds cpu_tick (pairs + pairs) m).1.cpu_running ≡ true
      → (milliseconds cpu_tick (pairs + pairs) m).0
        ≡ (pairs + pairs) * m.ticks_per_ms + overruns cpu_tick pairs m
  milliseconds_lem pairs m h = overruns_lem cpu_tick cpu_tick-ends pairs m h
