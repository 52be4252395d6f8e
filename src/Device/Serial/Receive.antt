-- ===== src/Device/Serial/Receive.antt =====
-- The bytes from the terminal reach the receive register in their order
-- (emulator/hd6301_serial.cc).
use hd6301_thing.Common.{
  ℕ, zero, suc, ◌+◌, ◌*◌, ◌<◌, ◌≤◌, ◌≡◌, refl, ◌∙◌, ap, arith, true, false, nz, max, bit_and,
  bit_or, ◌||◌, not, null, List, [], ◌∷◌, length, get_or, nz-bit_or, subst, ◌==◌, ==_iff,
  if◌then◌else◌, ◌%◌, holds_below, holds_below→at,
}
use hd6301_thing.Device.Interrupt.{Interrupt}
use hd6301_thing.Device.Serial.{
  Serial, byte_countdown, tick, transmit_tick, transmit_complete, receive_tick, deliver,
  receive_interrupt, note_empty, ticks,
}

-- The receiver's half: `q` is queued, at rate `r`, with `c` ticks to go until the front can move.
abbrev pub Pending : ℕ → ℕ → List ℕ → Serial → Type 0
Pending r c q s =
    (s.receive_register_full_countdown ≡ c)
    × (s.rmcr ≡ r)
    × (s.rx_fifo ≡ q)
    × ((null q || not s.rx_fifo_empty) ≡ true)

transmit_tick-Pending :
    (r c : ℕ) (q : List ℕ) (s : Serial × Interrupt)
    → Pending r c q s.0
    → Pending r c q (transmit_tick s).0
unfolding transmit_tick transmit_complete
transmit_tick-Pending r c q (s, line) w = ground arith

-- An interrupt of the receiver changes only its number.
receive_interrupt-kept :
    (s : Serial × Interrupt)
    → let t = (receive_interrupt s).0 in
      (t.trcsr ≡ s.0.trcsr)
      × (t.rmcr ≡ s.0.rmcr)
      × (t.rx_fifo ≡ s.0.rx_fifo)
      × (t.rx_fifo_empty ≡ s.0.rx_fifo_empty)
      × (t.receive_data_register ≡ s.0.receive_data_register)
unfolding receive_interrupt
receive_interrupt-kept (s, line) = ground arith

-- The byte `b` is in the register, and reported.
abbrev pub Holds : ℕ → Serial → Type 0
Holds b s = (s.receive_data_register ≡ b) × (nz (bit_and s.trcsr 128) ≡ true)

deliver_lem :
    (r b : ℕ) (bs : List ℕ) (s : Serial × Interrupt)
    → s.0.rmcr ≡ r
    → s.0.rx_fifo_empty ≡ false
    → let t = (deliver (b ∷ bs) s).0 in
      Pending r (byte_countdown r) bs t × Holds b t × (t.rx_fifo_empty ≡ false)
unfolding deliver
deliver_lem r b bs (s, line) w1 w3 =
    let bit = nz-bit_or 7 s.trcsr 128 in
    let kept =
      receive_interrupt-kept
        (record s { receive_data_register = b; rx_fifo = bs; trcsr = bit_or s.trcsr 128 }, line) in
    ground arith

note_empty-Pending :
    (r c b : ℕ) (q : List ℕ) (s : Serial)
    → Pending r c q s
    → Holds b s
    → Pending r c q (note_empty s) × Holds b (note_empty s)
unfolding note_empty
note_empty-Pending r c b q s (w0, w1, w2, w3) holds = ground arith

receive_tick-wait :
    (r c : ℕ) (q : List ℕ) (s : Serial × Interrupt)
    → Pending r (suc (suc c)) q s.0
    → Pending r (suc c) q (receive_tick s).0
unfolding receive_tick
receive_tick-wait r c q (s, line) w = ground arith

receive_tick-step :
    (c b : ℕ) (bs : List ℕ) (s : Serial) (line : Interrupt)
    → c ≤ 1
    → s.receive_register_full_countdown ≡ c
    → s.rx_fifo ≡ b ∷ bs
    → s.rx_fifo_empty ≡ false
    → let t = record s { receive_register_full_countdown = 0 } in
      receive_tick (s, line)
      ≡ (note_empty (deliver (b ∷ bs) (t, line)).0, (deliver (b ∷ bs) (t, line)).1)
unfolding receive_tick
receive_tick-step zero b bs s line h w0 w2 w3 =
    at_zero
    ∙ ap (λ (u : Serial). moved u) (λ i. record s { receive_register_full_countdown = w0 i })
  where
    moved : Serial → Serial × Interrupt
    moved u = (note_empty (deliver (b ∷ bs) (u, line)).0, (deliver (b ∷ bs) (u, line)).1)

    at_zero : receive_tick (s, line) ≡ moved s
    at_zero = rw (w0, w2, w3) refl
receive_tick-step (suc zero) b bs s line h w0 w2 w3 = rw (w0, w2, w3) refl
receive_tick-step (suc (suc c)) b bs s line h w0 w2 w3 = absurd (omega arith)

receive_tick-deliver :
    (r c b : ℕ) (bs : List ℕ) (s : Serial × Interrupt)
    → c ≤ 1
    → Pending r c (b ∷ bs) s.0
    → let t = (receive_tick s).0 in Pending r (byte_countdown r) bs t × Holds b t
unfolding receive_tick
receive_tick-deliver r c b bs (s, line) h (w0, w1, w2, w3) =
    let t = record s { receive_register_full_countdown = 0 } in
    let (pending, holds, flag) = deliver_lem r b bs (t, line) w1 (ground arith) in
    let noted =
      note_empty-Pending r (byte_countdown r) b bs (deliver (b ∷ bs) (t, line)).0 pending holds in
    let step = receive_tick-step c b bs s line h w0 w2 (ground arith) in rw (step) noted

tick-wait :
    (r c : ℕ) (q : List ℕ) (s : Serial × Interrupt)
    → Pending r (suc (suc c)) q s.0
    → Pending r (suc c) q (tick s).0
unfolding tick
tick-wait r c q s w =
    receive_tick-wait r c q (transmit_tick s) (transmit_tick-Pending r (suc (suc c)) q s w)

tick-deliver :
    (r c b : ℕ) (bs : List ℕ) (s : Serial × Interrupt)
    → c ≤ 1
    → Pending r c (b ∷ bs) s.0
    → Pending r (byte_countdown r) bs (tick s).0 × Holds b (tick s).0
unfolding tick
tick-deliver r c b bs s h w =
    receive_tick-deliver r c b bs (transmit_tick s) h (transmit_tick-Pending r c (b ∷ bs) s w)

-- The front arrives after `c` ticks, and after one if `c` is 0.
ticks-deliver :
    (r c b : ℕ) (bs : List ℕ) (s : Serial × Interrupt)
    → Pending r c (b ∷ bs) s.0
    → let t = (ticks (max 1 c) s).0 in Pending r (byte_countdown r) bs t × Holds b t
unfolding ticks
ticks-deliver r zero b bs s w = tick-deliver r 0 b bs s (omega arith) w
ticks-deliver r (suc zero) b bs s w = tick-deliver r 1 b bs s (omega arith) w
ticks-deliver r (suc (suc c)) b bs s w =
    subst (λ n. Pending r (byte_countdown r) bs (ticks n s).0 × Holds b (ticks n s).0) (longer c)
      (ticks-deliver r (suc c) b bs (tick s) (tick-wait r c (b ∷ bs) s w))
  where
    longer : (c : ℕ) → suc (max 1 (suc c)) ≡ max 1 (suc (suc c))
    longer c = omega arith

ticks-add : (m n : ℕ) (s : Serial × Interrupt) → ticks (m + n) s ≡ ticks n (ticks m s)
unfolding ticks
ticks-add zero n s = ap (λ k. ticks k s) (plus n)
  where
    plus : (n : ℕ) → 0 + n ≡ n
    plus n = omega arith
ticks-add (suc m) n s = ap (λ k. ticks k s) (move_suc m n) ∙ ticks-add m n (tick s)
  where
    move_suc : (m n : ℕ) → suc m + n ≡ suc (m + n)
    move_suc m n = omega arith

queue_lem :
    (q : List ℕ) (k c r : ℕ) (s : Serial × Interrupt)
    → k < length q
    → Pending r c q s.0
    → let t = (ticks (max 1 c + k * max 1 (byte_countdown r)) s).0 in
      (t.receive_data_register ≡ get_or q k 0) × (nz (bit_and t.trcsr 128) ≡ true)
queue_lem [] k c r s h w = absurd (omega arith)
queue_lem (b ∷ bs) zero c r s h w =
    subst (λ n. Holds b (ticks n s).0) (omega arith) (ticks-deliver r c b bs s w).1
queue_lem (b ∷ bs) (suc k) c r s h w =
    rw (ticks-add (max 1 c) (suc k * max 1 (byte_countdown r)) s) (
      subst (λ n. Holds (get_or bs k 0) (ticks n (ticks (max 1 c) s)).0) (omega arith)
        (queue_lem bs k (byte_countdown r) r (ticks (max 1 c) s) (omega arith)
          (ticks-deliver r c b bs s w).0))

-- The ticks from one byte to the next: ten bits of 16 ticks at rate 0; one tick at the others, where
-- ten bits take 1280 ticks, 10240 or 40960, whose remainder modulo 256 is 0.
abbrev pub byte_ticks : ℕ → ℕ
byte_ticks r = if r % 4 == 0 then 160 else 1

byte_ticks_table : holds_below (λ r. max 1 (byte_countdown r) == byte_ticks r) 16 ≡ true
unfolding holds_below byte_countdown
byte_ticks_table = refl

-- While the port only ticks, the bytes of the queue appear in the receive register in their order
-- and are reported there: the first when the countdown has run out, or in the next tick if it has,
-- and one more every 160 ticks at the rate of 16 ticks for a bit, but every tick at the other rates,
-- where a byte takes 1280 ticks or more.
pub receive_lem :
    (q : List ℕ) (k c r : ℕ) (s : Serial × Interrupt)
    → k < length q
    → r < 16
    → Pending r c q s.0
    → let t = (ticks (max 1 c + k * byte_ticks r) s).0 in
      (t.receive_data_register ≡ get_or q k 0) × (nz (bit_and t.trcsr 128) ≡ true)
receive_lem q k c r s h rate pending =
    subst (λ n. Holds (get_or q k 0) (ticks (max 1 c + k * n) s).0)
      ((==_iff _ _).0 (holds_below→at _ 16 r rate byte_ticks_table)) (queue_lem q k c r s h pending)
