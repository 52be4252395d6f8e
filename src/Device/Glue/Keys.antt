-- ===== src/Device/Glue/Keys.antt =====
-- The bytes of the keyboard leave the queue of the glue one by one (emulator/w65c22_to_spi_glue.cc).
use hd6301_thing.Common.{
  ℕ, zero, suc, ◌+◌, ◌-◌, ◌/◌, ◌≤◌, ◌≡◌, refl, ◌∙◌, arith, ◌==◌, List, [], ◌∷◌, ◌++◌, drop,
  Bool-cases, inl, inr, Option, append_assoc, subst,
}
use hd6301_thing.Common.Int.{pos, is_zero}
use hd6301_thing.Device.Keyboard.{KeyEvent, event_bytes}
use hd6301_thing.Device.Glue.{
  Glue, Ports, clk_bit_in, switch_changed, miso_bit_in, take_key, keyboard_tick, clock_tick, tick,
  push_all, handle_keyboard_event,
}

-- What happens at the glue, but for keys.
pub data Event : Type 0 where
  ticked : Event
  clock_in : ℕ → Event
  switched : ℕ → Event
  bit_in : ℕ → Event

abbrev pub tick_count : List Event → ℕ
tick_count [] = 0
tick_count (ticked ∷ es) = suc (tick_count es)
tick_count (clock_in value ∷ es) = tick_count es
tick_count (switched value ∷ es) = tick_count es
tick_count (bit_in value ∷ es) = tick_count es

-- The last of the first `n` bytes, or `shown` if there is none.
abbrev pub last_taken : ℕ → List ℕ → ℕ → ℕ
last_taken zero q shown = shown
last_taken (suc n) [] shown = shown
last_taken (suc n) (b ∷ q) shown = last_taken n q b

-- `n` bytes of `q` were taken; `shown` was the byte before.
abbrev pub Taken : ℕ → List ℕ → ℕ → Glue → Type 0
Taken n q shown g = (g.keyboard_data_queue ≡ drop n q) × (g.keyboard_data ≡ last_taken n q shown)

module _ {W A B C D : Type 0} (p : Ports W A B C D) where
  abbrev pub step : Event → Glue × W → Glue × W
  step ticked s = tick p s
  step (clock_in value) (g, w) = (clk_bit_in value g, w)
  step (switched value) s = switch_changed p value s
  step (bit_in value) s = miso_bit_in p value s

  abbrev pub run : List Event → Glue × W → Glue × W
  run [] s = s
  run (e ∷ es) s = run es (step e s)

  -- What the adapter can see of the keyboard, and what is to come.
  abbrev SameKeys : Glue → Glue → Type 0
  SameKeys g g' =
      (g'.keyboard_tick_countdown ≡ g.keyboard_tick_countdown)
      × (g'.keyboard_data_queue ≡ g.keyboard_data_queue)
      × (g'.keyboard_data ≡ g.keyboard_data)

  miso_bit_in-SameKeys : (value : ℕ) (g : Glue) (w : W) → SameKeys g (miso_bit_in p value (g, w)).0
  unfolding miso_bit_in
  miso_bit_in-SameKeys value g w = elim (Bool-cases (g.shift_count + 1 == 8)) [
    | inl e ↦ rw e (refl, refl, refl)
    | inr e ↦ rw e (refl, refl, refl)
  ]

  clock_tick-SameKeys : (g : Glue) (w : W) → SameKeys g (clock_tick p (g, w)).0
  unfolding clock_tick
  clock_tick-SameKeys g w = elim (Bool-cases g.clock_on_last_tick) [
    | inl on ↦ elim (Bool-cases (g.prev_clock == 1)) [
      | inl rising ↦ rw (on, rising) (miso_bit_in-SameKeys _ _ _)
      | inr falling ↦ rw (on, falling) (refl, refl, refl)
    ]
    | inr off ↦ rw off (refl, refl, refl)
  ]

  -- The queue `q` is to come, `shown` is the byte of now, and the countdown is at `c`.
  abbrev Waits : ℕ → List ℕ → ℕ → Glue → Type 0
  Waits c q shown g =
      (g.keyboard_tick_countdown ≡ pos c) × (g.keyboard_data_queue ≡ q) × (g.keyboard_data ≡ shown)

  abbrev IsDone : ℕ → Glue → Type 0
  IsDone shown g = (g.keyboard_data_queue ≡ []) × (g.keyboard_data ≡ shown)

  count_down :
      (c : ℕ) (q : List ℕ) (shown : ℕ) (g : Glue) (w : W)
      → Waits (suc c) q shown g
      → Waits c q shown (keyboard_tick p (g, w)).0
  unfolding keyboard_tick
  count_down c q shown g w (e, queue, shows) = rw e (refl, queue, shows)

  next_key :
      (b : ℕ) (q : List ℕ) (shown : ℕ) (g : Glue) (w : W)
      → Waits 0 (b ∷ q) shown g
      → Waits 1000 q b (keyboard_tick p (g, w)).0
  unfolding keyboard_tick
  next_key b q shown g w (e, queue, shows) = rw (e, queue) (refl, refl, refl)

  take_none :
      (q : List ℕ) (shown : ℕ) (g : Glue) (w : W)
      → q ≡ []
      → IsDone shown g
      → IsDone shown (take_key p q (g, w)).0
  unfolding take_key
  take_none [] shown g w e done = done
  take_none (b ∷ q) shown g w e done = absurd (cc)

  no_key : (shown : ℕ) (g : Glue) (w : W) → IsDone shown g → IsDone shown (keyboard_tick p (g, w)).0
  unfolding keyboard_tick
  no_key shown g w (queue, shows) = elim (Bool-cases (is_zero g.keyboard_tick_countdown)) [
    | inl e ↦ rw e (take_none g.keyboard_data_queue shown g w queue (queue, shows))
    | inr e ↦ rw e (queue, shows)
  ]

  -- Anything but a tick leaves the keys alone.
  quiet-SameKeys :
      (e : Event) (g : Glue) (w : W) → tick_count (e ∷ []) ≡ 0 → SameKeys g (step e (g, w)).0
  unfolding clk_bit_in switch_changed
  quiet-SameKeys ticked g w h = absurd (omega arith)
  quiet-SameKeys (clock_in value) g w h = (refl, refl, refl)
  quiet-SameKeys (switched value) g w h = (refl, refl, refl)
  quiet-SameKeys (bit_in value) g w h = miso_bit_in-SameKeys value g w

  SameKeys-Waits :
      {c : ℕ} {q : List ℕ} {shown : ℕ} (g g' : Glue)
      → SameKeys g g'
      → Waits c q shown g
      → Waits c q shown g'
  SameKeys-Waits g g' (e, f, h) (waits, queue, shows) = (e ∙ waits, f ∙ queue, h ∙ shows)

  SameKeys-IsDone : {shown : ℕ} (g g' : Glue) → SameKeys g g' → IsDone shown g → IsDone shown g'
  SameKeys-IsDone g g' (e, f, h) (queue, shows) = (f ∙ queue, h ∙ shows)

  run-IsDone :
      (es : List Event) (shown : ℕ) (g : Glue) (w : W)
      → IsDone shown g
      → IsDone shown (run es (g, w)).0
  unfolding tick
  run-IsDone [] shown g w done = done
  run-IsDone (ticked ∷ es) shown g w done =
      let (g1, w1) = clock_tick p (g, w) in
      let (g2, w2) = keyboard_tick p (g1, w1) in
      run-IsDone es shown g2 w2
        (no_key shown g1 w1 (SameKeys-IsDone g g1 (clock_tick-SameKeys g w) done))
  run-IsDone (clock_in value ∷ es) shown g w done =
      run-IsDone es shown (clk_bit_in value g) w
        (SameKeys-IsDone g (clk_bit_in value g) (quiet-SameKeys (clock_in value) g w refl) done)
  run-IsDone (switched value ∷ es) shown g w done =
      let (g1, w1) = switch_changed p value (g, w) in
      run-IsDone es shown g1 w1
        (SameKeys-IsDone g g1 (quiet-SameKeys (switched value) g w refl) done)
  run-IsDone (bit_in value ∷ es) shown g w done =
      let (g1, w1) = miso_bit_in p value (g, w) in
      run-IsDone es shown g1 w1 (SameKeys-IsDone g g1 (quiet-SameKeys (bit_in value) g w refl) done)

  IsDone-Taken : (n shown : ℕ) (g : Glue) → IsDone shown g → Taken n [] shown g
  IsDone-Taken zero shown g done = done
  IsDone-Taken (suc n) shown g done = done

  early : (c : ℕ) → c ≤ 1000 → 0 ≡ (0 + (1000 - c)) / 1001
  early c h = omega arith

  one_more : (n : ℕ) → suc ((n + (1000 - 1000)) / 1001) ≡ (suc n + (1000 - 0)) / 1001
  one_more n = omega arith

  one_less : (n c : ℕ) → suc c ≤ 1000 → (n + (1000 - c)) / 1001 ≡ (suc n + (1000 - suc c)) / 1001
  one_less n c h = omega arith

  run-Taken :
      (es : List Event) (c : ℕ) (q : List ℕ) (shown : ℕ) (g : Glue) (w : W)
      → c ≤ 1000
      → Waits c q shown g
      → Taken ((tick_count es + (1000 - c)) / 1001) q shown (run es (g, w)).0
  unfolding tick
  run-Taken es c [] shown g w h (e, queue, shows) =
      IsDone-Taken ((tick_count es + (1000 - c)) / 1001) shown (run es (g, w)).0
        (run-IsDone es shown g w (queue, shows))
  run-Taken [] c (b ∷ q) shown g w h (e, queue, shows) =
      subst (λ (n : ℕ). Taken n (b ∷ q) shown g) (early c h) (queue, shows)
  run-Taken (ticked ∷ es) zero (b ∷ q) shown g w h waits =
      let (g1, w1) = clock_tick p (g, w) in
      let (g2, w2) = keyboard_tick p (g1, w1) in
      let next = next_key b q shown g1 w1 (SameKeys-Waits g g1 (clock_tick-SameKeys g w) waits) in
      let taken = run-Taken es 1000 q b g2 w2 (omega arith) next in
      subst (λ (n : ℕ). Taken n (b ∷ q) shown (run es (g2, w2)).0) (one_more (tick_count es)) taken
  run-Taken (ticked ∷ es) (suc c) (b ∷ q) shown g w h waits =
      let (g1, w1) = clock_tick p (g, w) in
      let (g2, w2) = keyboard_tick p (g1, w1) in
      let counted =
        count_down c (b ∷ q) shown g1 w1 (SameKeys-Waits g g1 (clock_tick-SameKeys g w) waits) in
      let taken = run-Taken es c (b ∷ q) shown g2 w2 (omega arith) counted in
      subst (λ (n : ℕ). Taken n (b ∷ q) shown (run es (g2, w2)).0) (one_less (tick_count es) c h)
        taken
  run-Taken (clock_in value ∷ es) c (b ∷ q) shown g w h waits =
      run-Taken es c (b ∷ q) shown (clk_bit_in value g) w h
        (SameKeys-Waits g (clk_bit_in value g) (quiet-SameKeys (clock_in value) g w refl) waits)
  run-Taken (switched value ∷ es) c (b ∷ q) shown g w h waits =
      let (g1, w1) = switch_changed p value (g, w) in
      run-Taken es c (b ∷ q) shown g1 w1 h
        (SameKeys-Waits g g1 (quiet-SameKeys (switched value) g w refl) waits)
  run-Taken (bit_in value ∷ es) c (b ∷ q) shown g w h waits =
      let (g1, w1) = miso_bit_in p value (g, w) in
      run-Taken es c (b ∷ q) shown g1 w1 h
        (SameKeys-Waits g g1 (quiet-SameKeys (bit_in value) g w refl) waits)

  push_all-Waits :
      (b : ℕ) (bytes : List ℕ) (g : Glue)
      → Waits 1000 (g.keyboard_data_queue ++ b ∷ bytes) g.keyboard_data (push_all (b ∷ bytes) g)
  unfolding push_all
  push_all-Waits b [] g = (refl, refl, refl)
  push_all-Waits b (c ∷ bytes) g =
      let g1 = record g {
        keyboard_data_queue = g.keyboard_data_queue ++ b ∷ [];
        keyboard_tick_countdown = pos 1000;
      } in
      let (counts, queue, shows) = push_all-Waits c bytes g1 in
      (counts, queue ∙ append_assoc g.keyboard_data_queue (b ∷ []) (c ∷ bytes), shows)

  -- The bytes of a key that is pressed or released are taken from the queue after those that were
  -- queued before, one with every 1001 ticks from the event on, whatever else happens between them:
  -- the clock, the pins of the card and the selection change nothing.
  pub handle_keyboard_event_lem :
      (es : List Event) (b : ℕ) (bytes : List ℕ) (keymap : ℕ → Option (List ℕ × List ℕ))
      (event : KeyEvent) (g : Glue) (w : W)
      → event_bytes keymap event ≡ b ∷ bytes
      → Taken
          (tick_count es / 1001)
          (g.keyboard_data_queue ++ b ∷ bytes)
          g.keyboard_data
          (run es (handle_keyboard_event keymap event g, w)).0
  unfolding handle_keyboard_event
  handle_keyboard_event_lem es b bytes keymap event g w e = rw e (
      subst
        (λ (n : ℕ).
          Taken n (g.keyboard_data_queue ++ b ∷ bytes) g.keyboard_data
            (run es (push_all (b ∷ bytes) g, w)).0)
        (whole_interval (tick_count es))
        (run-Taken es 1000 (g.keyboard_data_queue ++ b ∷ bytes) g.keyboard_data
          (push_all (b ∷ bytes) g) w (omega arith) (push_all-Waits b bytes g)))
    where
      whole_interval : (n : ℕ) → (n + (1000 - 1000)) / 1001 ≡ n / 1001
      whole_interval n = omega arith
