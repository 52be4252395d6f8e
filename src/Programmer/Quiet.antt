-- ===== src/Programmer/Quiet.antt =====
-- The sequences of calls of the firmware, one by one, and the monitor over them (pico_programmer/pico_programmer.cpp).
use hd6301_thing.Common.{
  ℕ, ◌≡◌, refl, sym, ◌∙◌, ap, subst, arith, Bool, true, false, ◌&&◌, ◌==◌, List, [], ◌∷◌, ◌++◌,
}
use hd6301_thing.Programmer.{
  Call, Sdk, clk_pin, data_buf_oe_pin, perform_all, enter_stby_calls, exit_stby_calls,
  set_latch_calls, read_cycle_start, read_cycle_end, write_cycle_calls, init_pins_calls,
}
use hd6301_thing.Programmer.Pins.{Pins, after, has_one_driver, Laws, monitored}

abbrev pub after_all : List Call → Pins → Pins
after_all [] v = v
after_all (c ∷ cs) v = after_all cs (after c v)

-- One driver after each of the calls.
abbrev pub safe_all : List Call → Pins → Bool
safe_all [] v = true
safe_all (c ∷ cs) v = has_one_driver (after c v) && safe_all cs (after c v)

-- Between the commands the data buffer is off and the clock low.
abbrev pub IsQuiet : Pins → Type 0
IsQuiet v = (v.level data_buf_oe_pin ≡ true) × (v.level clk_pin ≡ false)

-- A list of calls that gives the bus one driver throughout, and is quiet at its end.
abbrev pub KeepsQuiet : List Call → Type 0
KeepsQuiet cs = (v : Pins) → IsQuiet v → (safe_all cs v ≡ true) × IsQuiet (after_all cs v)

pub one_driver_of_quiet : (v : Pins) → IsQuiet v → has_one_driver v ≡ true
one_driver_of_quiet v (off, low) = ground arith

pub enter_stby-KeepsQuiet : KeepsQuiet enter_stby_calls
enter_stby-KeepsQuiet v (off, low) = ground arith

pub exit_stby-KeepsQuiet : KeepsQuiet exit_stby_calls
exit_stby-KeepsQuiet v (off, low) = ground arith

-- The pin of a latch is neither that of the data buffer nor the clock.
pub set_latch-KeepsQuiet :
    (value latch_pin : ℕ)
    → (data_buf_oe_pin == latch_pin) ≡ false
    → (clk_pin == latch_pin) ≡ false
    → KeepsQuiet (set_latch_calls value latch_pin)
set_latch-KeepsQuiet value latch_pin h0 h1 v (off, low) = ground arith

pub write_cycle-KeepsQuiet : KeepsQuiet write_cycle_calls
write_cycle-KeepsQuiet v (off, low) = ground arith

pub read_cycle-KeepsQuiet : KeepsQuiet (read_cycle_start ++ read_cycle_end)
read_cycle-KeepsQuiet v (off, low) = ground arith

pub init_pins-IsQuiet : (v : Pins) → IsQuiet (after_all (init_pins_calls ++ exit_stby_calls) v)
init_pins-IsQuiet v = (refl, refl)

pub init_pins-one_driver :
    (v : Pins) → has_one_driver v ≡ true → safe_all (init_pins_calls ++ exit_stby_calls) v ≡ true
init_pins-one_driver v h = rw h refl

both : (a b : Bool) → (a && b) ≡ true → (a ≡ true) × (b ≡ true)
both a b h = ground arith

pub silent-KeepsQuiet : (c : Call) → ((v : Pins) → after c v ≡ v) → KeepsQuiet (c ∷ [])
silent-KeepsQuiet c same v quiet =
    rw (same v) (ap (λ b. b && true) (one_driver_of_quiet v quiet), quiet)

-- There was one driver so far, and the firmware is between two commands.
abbrev pub IsWatched : {P : Type 0} → (P → Pins) → P × Bool → Type 0
IsWatched view s = IsQuiet (view s.0) × (s.1 ≡ true)

module _ {P : Type 0} (sdk : Sdk P) (view : P → Pins) (laws : Laws sdk view) where
  abbrev mon : Sdk (P × Bool)
  mon = monitored sdk view

  pub watch :
      (cs : List Call) (s : P × Bool)
      → s.1 ≡ true
      → safe_all cs (view s.0) ≡ true
      → let s' = perform_all mon cs s in (view s'.0 ≡ after_all cs (view s.0)) × (s'.1 ≡ true)
  unfolding perform_all monitored
  watch [] s so_far safe = (refl, so_far)
  watch (c ∷ cs) s so_far safe =
      let e = laws.performs c s.0 in
      let (one, rest) =
        both (has_one_driver (after c (view s.0))) (safe_all cs (after c (view s.0))) safe in
      let (pins, kept) =
        watch cs (mon.perform c s) (rw (so_far, e) one) (ap (safe_all cs) e ∙ rest) in
      (pins ∙ ap (after_all cs) e, kept)

  pub perform_all-IsWatched :
      (cs : List Call) (s : P × Bool)
      → KeepsQuiet cs
      → IsWatched view s
      → IsWatched view (perform_all mon cs s)
  perform_all-IsWatched cs s keeps (quiet, so_far) =
      let (safe, still) = keeps (view s.0) quiet in
      let (pins, kept) = watch cs s so_far safe in (subst IsQuiet (sym pins) still, kept)
