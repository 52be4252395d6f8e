-- ===== src/Device/Serial/Transmit.antt =====
-- Sending bytes through the serial port in a run of it (emulator/hd6301_serial.cc).
use hd6301_thing.Common.{
  ℕ, suc, ◌+◌, ◌-◌, ◌%◌, ◌≡◌, ◌≢◌, refl, ◌∙◌, ap, arith, true, false, Bool, nz, bit_and, ltb, leb,
  ◌==◌, ◌||◌, if◌then◌else◌, List, [], ◌∷◌, ◌++◌, nz-bit_or, nz-bit_and_mask, subst,
}
use hd6301_thing.Device.Interrupt.{Interrupt}
use hd6301_thing.Device.Serial.{
  Serial, byte_countdown, ticks_per_bit, tick, transmit_tick, transmit_complete, receive_tick,
  deliver, receive_interrupt, note_empty, write, write_control, acknowledge_transmit, transmit,
  read, acknowledge_receive, receive, offset_of,
}
use hd6301_thing.Device.Serial.Events.{
  Event, ticked, written, was_read, received, step, run, tick_count, is_quiet,
}

abbrev is_ready : Serial → Bool
is_ready s = nz (bit_and s.trcsr 32)

-- The sender's half of the port is the same.
abbrev SameSender : Serial → Serial → Type 0
SameSender s t =
    (is_ready t ≡ is_ready s)
    × (t.transmit_register_empty_countdown ≡ s.transmit_register_empty_countdown)
    × (t.sent ≡ s.sent)

deliver-SameSender : (q : List ℕ) (s : Serial × Interrupt) → SameSender s.0 (deliver q s).0
unfolding deliver receive_interrupt
deliver-SameSender [] (s, line) = (refl, refl, refl)
deliver-SameSender (x ∷ xs) (s, line) = let bit = nz-bit_or 5 s.trcsr 128 in ground arith

note_empty-SameSender : (s : Serial) → SameSender s (note_empty s)
unfolding note_empty
note_empty-SameSender s = ground arith

receive_tick-SameSender : (s : Serial × Interrupt) → SameSender s.0 (receive_tick s).0
unfolding receive_tick
receive_tick-SameSender (s, line) =
    let n = s.receive_register_full_countdown in
    let t = if ltb 0 n then record s { receive_register_full_countdown = n - 1 } else s in
    let moved = deliver-SameSender t.rx_fifo (t, line) in
    let noted = note_empty-SameSender (deliver t.rx_fifo (t, line)).0 in ground arith

transmit_tick_lem :
    (s : Serial × Interrupt)
    → let t = (transmit_tick s).0 in
      (t.transmit_register_empty_countdown ≡ s.0.transmit_register_empty_countdown - 1)
      × (is_ready t ≡ (s.0.transmit_register_empty_countdown == 1 || is_ready s.0))
      × (t.sent ≡ s.0.sent)
unfolding transmit_tick transmit_complete
transmit_tick_lem (s, line) = let bit = nz-bit_or 5 s.trcsr 32 in ground arith

read-SameSender : (address : ℕ) (s : Serial × Interrupt) → SameSender s.0 (read address s).1
unfolding read acknowledge_receive
read-SameSender address (s, line) = ground arith

-- The countdown and the flag of an empty register, `n` ticks after the countdown was at `c`.
abbrev Waits : ℕ → List ℕ → Serial → Type 0
Waits c sent s =
    (s.transmit_register_empty_countdown ≡ c) × (is_ready s ≡ (c == 0)) × (s.sent ≡ sent)

tick-Waits :
    (c : ℕ) (sent : List ℕ) (s : Serial × Interrupt)
    → Waits c sent s.0
    → Waits (c - 1) sent (tick s).0
unfolding tick
tick-Waits c sent s w =
    let first = transmit_tick_lem s in
    let second = receive_tick-SameSender (transmit_tick s) in ground arith

SameSender-Waits :
    (c : ℕ) (sent : List ℕ) (s t : Serial) → SameSender s t → Waits c sent s → Waits c sent t
SameSender-Waits c sent s t (h0, h1, h2) (w0, w1, w2) = (h1 ∙ w0, h0 ∙ w1, h2 ∙ w2)

run-Waits :
    (es : List Event) (c : ℕ) (sent : List ℕ) (s : Serial × Interrupt)
    → is_quiet es ≡ true
    → Waits c sent s.0
    → Waits (c - tick_count es) sent (run es s).0
unfolding run step
run-Waits [] c sent s q w = rw (minus_zero c) w
  where
    minus_zero : (c : ℕ) → c - 0 ≡ c
    minus_zero c = omega arith
run-Waits (ticked ∷ es) c sent s q w =
    subst (λ n. Waits n sent (run es (tick s)).0) (take_one c (tick_count es))
      (run-Waits es (c - 1) sent (tick s) q (tick-Waits c sent s w))
  where
    take_one : (c n : ℕ) → c - 1 - n ≡ c - suc n
    take_one c n = omega arith
run-Waits (written address value ∷ es) c sent s q w = ground arith
run-Waits (was_read address ∷ es) c sent s q w =
    let (value, s1, line1) = read address s in
    run-Waits es c sent (s1, line1) q (SameSender-Waits c sent s.0 s1 (read-SameSender address s) w)
run-Waits (received byte ∷ es) c sent (s, line) q w =
    run-Waits es c sent (receive byte s, line) q
      (SameSender-Waits c sent s (receive byte s) (refl, refl, refl) w)

offset-three : (b : ℕ) → (b + 3 + 65536 - b) % 65536 ≡ 3
offset-three b = omega arith

write_three :
    (value : ℕ) (s : Serial) (line : Interrupt)
    → (write (s.base_address + 3) value (s, line)).0
      ≡ transmit value (acknowledge_transmit (s, line)).0
unfolding write offset_of
write_three value s line = rw (offset-three s.base_address) refl

acknowledge_transmit-kept :
    (s : Serial) (line : Interrupt)
    → let t = (acknowledge_transmit (s, line)).0 in
      (t.trcsr ≡ s.trcsr)
      × (t.rmcr ≡ s.rmcr)
      × (t.sent ≡ s.sent)
      × (t.transmit_register_empty_countdown ≡ s.transmit_register_empty_countdown)
unfolding acknowledge_transmit
acknowledge_transmit-kept s line = ground arith

-- A byte is accepted: the transmitter is on, and its register empty.
abbrev pub Accepts : Serial → Type 0
Accepts s = (nz (bit_and s.trcsr 2) ≡ true) × (nz (bit_and s.trcsr 32) ≡ true)

transmit-Waits :
    (value : ℕ) (s : Serial)
    → Accepts s
    → let t = transmit value s in
      (is_ready t ≡ false)
      × (t.transmit_register_empty_countdown ≡ byte_countdown s.rmcr)
      × (t.sent ≡ s.sent ++ value ∷ [])
unfolding transmit
transmit-Waits value s (on, empty) = let bit = nz-bit_and_mask 5 s.trcsr 223 in ground arith

slow_countdown : (rmcr : ℕ) → ticks_per_bit rmcr ≡ 16 → byte_countdown rmcr ≡ 160
unfolding byte_countdown
slow_countdown rmcr h = rw (h) refl

fast_countdown : (rmcr : ℕ) → ticks_per_bit rmcr ≢ 16 → byte_countdown rmcr ≡ 0
unfolding byte_countdown ticks_per_bit
fast_countdown rmcr h = ground arith

write-Waits :
    (value : ℕ) (s : Serial) (line : Interrupt)
    → Accepts s
    → let t = (write (s.base_address + 3) value (s, line)).0 in
      (is_ready t ≡ false)
      × (t.transmit_register_empty_countdown ≡ byte_countdown s.rmcr)
      × (t.sent ≡ s.sent ++ value ∷ [])
write-Waits value s line h = rw (write_three value s line) (
    let s1 = (acknowledge_transmit (s, line)).0 in
    let kept = acknowledge_transmit-kept s line in
    let sent = transmit-Waits value s1 (ground arith) in
    (sent.0, sent.1 ∙ ap byte_countdown kept.1, sent.2 ∙ ap (λ q. q ++ value ∷ []) kept.2))

-- At the rate of 16 ticks for a bit, a byte that is written to an empty transmit register with the
-- transmitter on is sent, and the register is reported empty again when 160 ticks have passed, not
-- before, whatever is read and received meanwhile, if nothing is written.
pub transmit_lem :
    (value : ℕ) (es : List Event) (s : Serial) (line : Interrupt)
    → Accepts s
    → ticks_per_bit s.rmcr ≡ 16
    → is_quiet es ≡ true
    → let t = (run es (write (s.base_address + 3) value (s, line))).0 in
      (t.sent ≡ s.sent ++ value ∷ []) × (nz (bit_and t.trcsr 32) ≡ leb 160 (tick_count es))
transmit_lem value es s line h rate quiet =
    let (ready, countdown, sent) = write-Waits value s line h in
    let n = slow_countdown s.rmcr rate in
    let (left, flag, kept) =
      run-Waits es 160 (s.sent ++ value ∷ []) (write (s.base_address + 3) value (s, line)) quiet
        (countdown ∙ n, ready, sent) in
    (kept, ground (arith, flag))

-- The transmitter neither sends nor reports that it can.
abbrev IsStuck : List ℕ → Serial → Type 0
IsStuck sent s = (s.transmit_register_empty_countdown ≡ 0) × (is_ready s ≡ false) × (s.sent ≡ sent)

write_control-IsStuck :
    (value : ℕ) (sent : List ℕ) (s : Serial) → IsStuck sent s → IsStuck sent (write_control value s)
unfolding write_control
write_control-IsStuck value sent s stuck =
    let kept = nz-bit_and_mask 5 s.trcsr 0b11100000 in
    let masked = nz-bit_and_mask 5 value 0b00011111 in
    let both = nz-bit_or 5 (bit_and s.trcsr 0b11100000) (bit_and value 0b00011111) in ground arith

write-IsStuck :
    (address value : ℕ) (sent : List ℕ) (s : Serial × Interrupt)
    → IsStuck sent s.0
    → IsStuck sent (write address value s).0
unfolding write transmit
write-IsStuck address value sent (s, line) stuck =
    let control = write_control-IsStuck value sent s stuck in
    let kept = acknowledge_transmit-kept s line in ground arith

tick-IsStuck : (sent : List ℕ) (s : Serial × Interrupt) → IsStuck sent s.0 → IsStuck sent (tick s).0
unfolding tick
tick-IsStuck sent s stuck =
    let first = transmit_tick_lem s in
    let second = receive_tick-SameSender (transmit_tick s) in ground arith

step-IsStuck :
    (e : Event) (sent : List ℕ) (s : Serial × Interrupt)
    → IsStuck sent s.0
    → IsStuck sent (step e s).0
unfolding step
step-IsStuck ticked sent s stuck = tick-IsStuck sent s stuck
step-IsStuck (written address value) sent s stuck = write-IsStuck address value sent s stuck
step-IsStuck (was_read address) sent s (h0, h1, h2) =
    let (r0, r1, r2) = read-SameSender address s in (r1 ∙ h0, r0 ∙ h1, r2 ∙ h2)
step-IsStuck (received byte) sent (s, line) stuck = stuck

run-IsStuck :
    (es : List Event) (sent : List ℕ) (s : Serial × Interrupt)
    → IsStuck sent s.0
    → IsStuck sent (run es s).0
unfolding run
run-IsStuck [] sent s stuck = stuck
run-IsStuck (e ∷ es) sent s stuck = run-IsStuck es sent (step e s) (step-IsStuck e sent s stuck)

-- At each of the other rates, a byte that is written to an empty transmit register with the
-- transmitter on is sent, and is the last one: in no run after it is the register reported empty or
-- another byte sent.
pub transmit-IsStuck :
    (value : ℕ) (es : List Event) (s : Serial) (line : Interrupt)
    → Accepts s
    → ticks_per_bit s.rmcr ≢ 16
    → let t = (run es (write (s.base_address + 3) value (s, line))).0 in
      (t.sent ≡ s.sent ++ value ∷ []) × (nz (bit_and t.trcsr 32) ≡ false)
transmit-IsStuck value es s line h rate =
    let (ready, countdown, sent) = write-Waits value s line h in
    let (left, flag, kept) =
      run-IsStuck es (s.sent ++ value ∷ []) (write (s.base_address + 3) value (s, line))
        (countdown ∙ fast_countdown s.rmcr rate, ready, sent) in
    (kept, flag)
