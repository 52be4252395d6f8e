-- ===== src/Programmer/Latches.antt =====
-- The address on the bus of the board: what the latches hold, and what a read cycle gives
-- (pico_programmer/pico_programmer.cpp, and the 74573 latches of programmer_board/).
use hd6301_thing.Common.{
  ℕ, ◌+◌, ◌*◌, ◌<◌, ◌≡◌, refl, sym, ap, ◌∙◌, subst, arith, Bool, true, false, not, ◌&&◌, ◌==◌,
  ==_iff, if◌then◌else◌, u8, ◌>>>◌, List, [], ◌∷◌, holds_below, holds_below→at, ◌▹◌,
}
use hd6301_thing.Programmer.{
  Call, gpio_put, gpio_put_masked, busy_wait_us_32, pin_mask_data, Sdk, perform_all, mask_to_data,
  data_to_mask, set_latch_calls, set_latch, set_address_low, set_address_high, set_address,
  read_cycle_start, read_cycle_end, read_cycle, clk_pin, rw_pin, stby_pin, data_latch_oe_pin,
  data_buf_oe_pin, addr_l_latch_pin, addr_h_latch_pin, addr_l_latch_oe_pin, addr_h_latch_oe_pin,
  addr_l_buf_oe_pin, addr_h_buf_oe_pin,
}
use hd6301_thing.Programmer.Pins.{Pins, after}
use hd6301_thing.Programmer.Quiet.{after_all}

abbrev digit : Bool → ℕ
digit b = if b then 1 else 0

-- The byte on the data pins.
abbrev pub data_on : Pins → ℕ
data_on v =
    digit (v.level 8)
    + 2 * digit (v.level 9)
    + 4 * digit (v.level 10)
    + 8 * digit (v.level 11)
    + 16 * digit (v.level 12)
    + 32 * digit (v.level 13)
    + 64 * digit (v.level 14)
    + 128 * digit (v.level 15)

-- All of some pins are outputs, or all are inputs.
abbrev pub all_outputs : List ℕ → Pins → Bool
all_outputs [] v = true
all_outputs (pin ∷ pins) v = v.is_output pin && all_outputs pins v

abbrev pub all_inputs : List ℕ → Pins → Bool
all_inputs [] v = true
all_inputs (pin ∷ pins) v = not (v.is_output pin) && all_inputs pins v

abbrev pub data_pins : List ℕ
data_pins = 8 ∷ 9 ∷ 10 ∷ 11 ∷ 12 ∷ 13 ∷ 14 ∷ 15 ∷ []

abbrev pub control_pins : List ℕ
control_pins =
    clk_pin ∷ rw_pin ∷ stby_pin ∷ data_latch_oe_pin ∷ data_buf_oe_pin ∷ addr_l_latch_pin
    ∷ addr_h_latch_pin ∷ addr_l_latch_oe_pin ∷ addr_h_latch_oe_pin ∷ addr_l_buf_oe_pin
    ∷ addr_h_buf_oe_pin ∷ []

-- The address latches drive the address of the bus; the processor and the address buffers do not.
abbrev pub DrivesAddress : Pins → Type 0
DrivesAddress v =
    (v.level stby_pin ≡ false)
    × (v.level addr_l_latch_oe_pin ≡ false)
    × (v.level addr_h_latch_oe_pin ≡ false)
    × (v.level addr_l_buf_oe_pin ≡ true)
    × (v.level addr_h_buf_oe_pin ≡ true)
    × (all_outputs control_pins v ≡ true)

-- In standby, between two cycles: the data pins drive the inputs of the latches, which are closed.
abbrev pub IsStandby : Pins → Type 0
IsStandby v =
    DrivesAddress v
    × (v.level addr_l_latch_pin ≡ false)
    × (v.level addr_h_latch_pin ≡ false)
    × (all_outputs data_pins v ≡ true)

-- A read with the clock high: the data buffer alone drives the data pins.
abbrev pub IsReading : Pins → Type 0
IsReading v =
    DrivesAddress v
    × (v.level clk_pin ≡ true)
    × (v.level rw_pin ≡ true)
    × (v.level data_latch_oe_pin ≡ true)
    × (v.level data_buf_oe_pin ≡ false)
    × (all_inputs data_pins v ≡ true)

-- A latch, whose state is `held`: it takes what is on the data pins while its pin is high, and keeps
-- it while that is low.
pub record IsLatch {P : Type 0} (sdk : Sdk P) (view : P → Pins) (pin : ℕ) (held : P → ℕ)
    : Type 0 where
  pub follows :
      (c : Call) (p : P)
      → let v = view (sdk.perform c p) in
        v.level pin ≡ true → all_outputs data_pins v ≡ true → held (sdk.perform c p) ≡ data_on v
  pub keeps :
      (c : Call) (p : P)
      → (view (sdk.perform c p)).level pin ≡ false
      → held (sdk.perform c p) ≡ held p

-- The board: its latches, and a memory that puts the byte at the latched address on the data pins.
pub record Hardware {P : Type 0} (sdk : Sdk P) (view : P → Pins) (low high : P → ℕ) (memory : ℕ → ℕ)
    : Type 0 where
  pub performs : (c : Call) (p : P) → view (sdk.perform c p) ≡ after c (view p)
  pub low_latch : IsLatch sdk view addr_l_latch_pin low
  pub high_latch : IsLatch sdk view addr_h_latch_pin high
  pub reads :
      (p : P)
      → IsReading (view p)
      → mask_to_data (sdk.gpio_get_all p) ≡ memory (high p * 256 + low p)

data_set_table :
    holds_below
      (λ value.
        data_on (
          after_all
            (set_latch_calls value addr_l_latch_pin)
            (record { level = λ pin. false; is_output = λ pin. true }))
        == value)
      256
    ≡ true
unfolding holds_below data_to_mask
data_set_table = refl

module _ {P : Type 0} (sdk : Sdk P) (view : P → Pins) (low high : P → ℕ) (memory : ℕ → ℕ)
    (hardware : Hardware sdk view low high memory) where
  view-perform_all : (cs : List Call) (p : P) → view (perform_all sdk cs p) ≡ after_all cs (view p)
  unfolding perform_all
  view-perform_all [] p = refl
  view-perform_all (c ∷ cs) p =
      view-perform_all cs (sdk.perform c p) ∙ ap (after_all cs) (hardware.performs c p)

  -- A latch that stays closed keeps what it holds.
  abbrev ClosedAll : ℕ → List Call → Pins → Type 0
  ClosedAll pin [] v = Unit {0}
  ClosedAll pin (c ∷ cs) v = ((after c v).level pin ≡ false) × ClosedAll pin cs (after c v)

  perform_all-keeps :
      (pin : ℕ) (held : P → ℕ)
      → IsLatch sdk view pin held
      → (cs : List Call) (p : P) → ClosedAll pin cs (view p)
      → held (perform_all sdk cs p) ≡ held p
  unfolding perform_all
  perform_all-keeps pin held latch [] p h = refl
  perform_all-keeps pin held latch (c ∷ cs) p (h, hs) =
      perform_all-keeps pin held latch cs (sdk.perform c p)
        (subst (ClosedAll pin cs) (sym (hardware.performs c p)) hs)
      ∙ latch.keeps c p (ap (λ (v : Pins). v.level pin) (hardware.performs c p) ∙ h)

  -- `set_latch` but for its last call, which closes the latch.
  abbrev opening : ℕ → ℕ → List Call
  opening pin value =
      gpio_put_masked pin_mask_data (data_to_mask value)
      ∷ gpio_put pin true
      ∷ busy_wait_us_32 1
      ∷ []

  set_latch-held :
      (pin : ℕ) (held : P → ℕ) (value : ℕ) (p : P)
      → IsLatch sdk view pin held
      → let v = after_all (opening pin value) (view p) in
        v.level pin ≡ true
        → all_outputs data_pins v ≡ true
        → data_on v ≡ value
        → (after (gpio_put pin false) v).level pin ≡ false
        → held (perform_all sdk (set_latch_calls value pin) p) ≡ value
  unfolding perform_all
  set_latch-held pin held value p latch opened outputs on closed =
      let p1 = sdk.perform (gpio_put_masked pin_mask_data (data_to_mask value)) p in
      let p2 = sdk.perform (gpio_put pin true) p1 in
      let p3 = sdk.perform (busy_wait_us_32 1) p2 in
      let seen = view-perform_all (opening pin value) p in
      latch.keeps (gpio_put pin false) p3 (
        ap (λ (v : Pins). v.level pin)
          (hardware.performs (gpio_put pin false) p3 ∙ ap (after (gpio_put pin false)) seen)
        ∙ closed)
      ∙ latch.follows (busy_wait_us_32 1) p2 (ap (λ (v : Pins). v.level pin) seen ∙ opened)
          (ap (all_outputs data_pins) seen ∙ outputs)
      ∙ ap data_on seen
      ∙ on

  set_address_low_lem :
      (value : ℕ) (p : P)
      → value < 256
      → IsStandby (view p)
      → let p' = set_address_low sdk value p in
        IsStandby (view p') × (low p' ≡ value) × (high p' ≡ high p)
  unfolding set_address_low set_latch data_to_mask
  set_address_low_lem value p h (drives, low_closed, high_closed, outputs) = (
    subst IsStandby (sym (view-perform_all (set_latch_calls value addr_l_latch_pin) p))
        (drives, refl, high_closed, outputs),
    set_latch-held addr_l_latch_pin low value p hardware.low_latch refl outputs
        ((==_iff _ _).0 (holds_below→at _ 256 value h data_set_table)) refl,
    perform_all-keeps addr_h_latch_pin high hardware.high_latch
        (set_latch_calls value addr_l_latch_pin) p
        (high_closed ▹ high_closed ▹ high_closed ▹ high_closed ▹ tt),
  )

  set_address_high_lem :
      (value : ℕ) (p : P)
      → value < 256
      → IsStandby (view p)
      → let p' = set_address_high sdk value p in
        IsStandby (view p') × (high p' ≡ value) × (low p' ≡ low p)
  unfolding set_address_high set_latch data_to_mask
  set_address_high_lem value p h (drives, low_closed, high_closed, outputs) = (
    subst IsStandby (sym (view-perform_all (set_latch_calls value addr_h_latch_pin) p))
        (drives, low_closed, refl, outputs),
    set_latch-held addr_h_latch_pin high value p hardware.high_latch refl outputs
        ((==_iff _ _).0 (holds_below→at _ 256 value h data_set_table)) refl,
    perform_all-keeps addr_l_latch_pin low hardware.low_latch
        (set_latch_calls value addr_h_latch_pin) p
        (low_closed ▹ low_closed ▹ low_closed ▹ low_closed ▹ tt),
  )

  -- In standby, `set_address` puts the address into the latches.
  set_address_lem :
      (address : ℕ) (p : P)
      → address < 65536
      → IsStandby (view p)
      → let p' = set_address sdk address p in
        IsStandby (view p') × (high p' * 256 + low p' ≡ address)
  unfolding set_address
  set_address_lem address p h standby =
      let lower = set_address_low_lem (u8 address) p (omega arith) standby in
      let p1 = set_address_low sdk (u8 address) p in
      let upper = set_address_high_lem (address >>> 8) p1 (omega arith) lower.0 in
      (upper.0, omega (arith, upper.1, upper.2, lower.1))

  -- A read cycle in standby gives the byte at the address in the latches, and ends in standby.
  read_cycle_lem :
      (p : P)
      → IsStandby (view p)
      → let (value, p') = read_cycle sdk p in
        (value ≡ memory (high p * 256 + low p)) × IsStandby (view p')
  unfolding read_cycle
  read_cycle_lem p (drives, low_closed, high_closed, outputs) =
      let p1 = perform_all sdk read_cycle_start p in
      let l = low_closed in
      let h = high_closed in
      (
        hardware.reads p1 (
              subst IsReading (sym (view-perform_all read_cycle_start p))
                (drives, refl, refl, refl, refl, refl))
            ∙ ap memory (λ i.
              perform_all-keeps addr_h_latch_pin high hardware.high_latch read_cycle_start p
                  (h ▹ h ▹ h ▹ h ▹ h ▹ h ▹ h ▹ tt) i
                * 256
              + perform_all-keeps addr_l_latch_pin low hardware.low_latch read_cycle_start p
                  (l ▹ l ▹ l ▹ l ▹ l ▹ l ▹ l ▹ tt) i),
        subst IsStandby
            (sym (
              view-perform_all read_cycle_end p1
              ∙ ap (after_all read_cycle_end) (view-perform_all read_cycle_start p)))
            (drives, low_closed, high_closed, refl),
      )

  pub read_at_address :
      (address : ℕ) (p : P)
      → address < 65536
      → IsStandby (view p)
      → let (value, p') = read_cycle sdk (set_address sdk address p) in
        (value ≡ memory address) × IsStandby (view p')
  read_at_address address p h standby =
      let (standby1, e) = set_address_lem address p h standby in
      let (value, standby2) = read_cycle_lem (set_address sdk address p) standby1 in
      (value ∙ ap memory e, standby2)
