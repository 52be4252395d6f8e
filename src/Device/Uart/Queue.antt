-- ===== src/Device/Uart/Queue.antt =====
-- The bytes that the UART receives are read in their order (emulator/tl16c2550.cc).
use hd6301_thing.Common.{
  ℕ, ◌≡◌, refl, sym, ap, ◌∙◌, arith, Bool, false, ◌==◌, ◌&&◌, not, nz, bit_and, if◌then◌else◌, List,
  [], ◌∷◌, ◌++◌, null, append-nil, append_assoc, nz-bit_or, nz-bit_and_mask, Bool-cases, inl, inr,
}
use hd6301_thing.Device.Interrupt.{Interrupt}
use hd6301_thing.Device.Uart.{
  Uart, uart_at, clear_receive_interrupt, pop_received, read_data, register_offset, read_register,
  set_interrupt_enable, write_register, receive_byte,
}

-- What happens to the UART: a byte from the terminal, and the accesses of the processor.
pub data Access : Type 0 where
  received : ℕ → Access
  was_read : ℕ → Access
  written : ℕ → ℕ → Access

abbrev pub has_data : Uart → Bool
has_data u = nz (bit_and u.line_status_register 1)

-- The bytes that the reads of the data register gave while the status showed data.
abbrev pub given : ℕ → Uart × Interrupt → List ℕ
given address s =
    if register_offset address s.0 == 0 && has_data s.0
    then (read_register address s).0 ∷ []
    else []

-- The bytes that the processor has, and the UART, after some accesses.
unfoldable pub run_accesses : List Access → List ℕ → Uart × Interrupt → List ℕ × Uart
unfolding receive_byte read_register write_register
run_accesses [] taken s = (taken, s.0)
run_accesses (received byte ∷ more) taken s = run_accesses more taken (receive_byte byte s)
run_accesses (was_read address ∷ more) taken s =
    let (value, u, line) = read_register address s in
    run_accesses more (taken ++ given address s) (u, line)
run_accesses (written address value ∷ more) taken s =
    run_accesses more taken (write_register address value s)

abbrev pub all_received : List Access → List ℕ
all_received [] = []
all_received (received byte ∷ more) = byte ∷ all_received more
all_received (was_read address ∷ more) = all_received more
all_received (written address value ∷ more) = all_received more

-- The status shows data exactly when the queue has some.
abbrev IsReported : Uart → Type 0
IsReported u = has_data u ≡ not (null u.rx_fifo)

clear_receive_interrupt-kept :
    (s : Uart × Interrupt)
    → let u = (clear_receive_interrupt s).0 in
      (u.rx_fifo ≡ s.0.rx_fifo) × (u.line_status_register ≡ s.0.line_status_register)
unfolding clear_receive_interrupt
clear_receive_interrupt-kept (u, line) = ground arith

write_register-kept :
    (address value : ℕ) (s : Uart × Interrupt)
    → let u = (write_register address value s).0 in
      (u.rx_fifo ≡ s.0.rx_fifo) × (u.line_status_register ≡ s.0.line_status_register)
unfolding write_register set_interrupt_enable
write_register-kept address value (u, line) =
    let cleared =
      clear_receive_interrupt-kept (record u { interrupt_enable_register = value }, line) in
    ground arith

null-append : (xs : List ℕ) (x : ℕ) → null (xs ++ x ∷ []) ≡ false
null-append [] x = refl
null-append (y ∷ xs) x = refl

receive_byte_lem :
    (byte : ℕ) (s : Uart × Interrupt)
    → let u = (receive_byte byte s).0 in (u.rx_fifo ≡ s.0.rx_fifo ++ byte ∷ []) × IsReported u
unfolding receive_byte
receive_byte_lem byte (u, line) =
    let bit = nz-bit_or 0 u.line_status_register 1 in
    let full = null-append u.rx_fifo byte in ground arith

pop_received_lem :
    (queue : List ℕ) (u : Uart)
    → u.rx_fifo ≡ queue
    → IsReported u
    → let (value, v) = pop_received queue u in
      IsReported v × (queue ≡ (if has_data u then value ∷ [] else []) ++ v.rx_fifo)
unfolding pop_received
pop_received_lem [] u e h = let hd = h ∙ ap (λ q. not (null q)) e in (h, rw (hd, e) refl)
pop_received_lem (front ∷ []) u e h =
    let hd = h ∙ ap (λ q. not (null q)) e in
    let bit = nz-bit_and_mask 0 u.line_status_register 254 in (ground arith, rw (hd) refl)
pop_received_lem (front ∷ b ∷ rest) u e h =
    let hd = h ∙ ap (λ q. not (null q)) e in (hd, rw (hd) refl)

read_data_lem :
    (s : Uart × Interrupt)
    → IsReported s.0
    → let (value, u, line) = read_data s in
      IsReported u × (s.0.rx_fifo ≡ (if has_data s.0 then value ∷ [] else []) ++ u.rx_fifo)
unfolding read_data
read_data_lem s h =
    let u1 = (clear_receive_interrupt s).0 in
    let (queue, status) = clear_receive_interrupt-kept s in
    let same = ap (λ (n : ℕ). nz (bit_and n 1)) status in
    let popped =
      pop_received_lem u1.rx_fifo u1 refl (same ∙ h ∙ sym (ap (λ q. not (null q)) queue)) in
    (
      popped.0,
      sym queue
          ∙ popped.1
          ∙ ap
              (λ b.
                (if b then (pop_received u1.rx_fifo u1).0 ∷ [] else [])
                ++ (pop_received u1.rx_fifo u1).1.rx_fifo)
              same,
    )

read_register_lem :
    (address : ℕ) (s : Uart × Interrupt)
    → IsReported s.0
    → let u = (read_register address s).1 in
      IsReported u × (s.0.rx_fifo ≡ given address s ++ u.rx_fifo)
unfolding read_register
read_register_lem address (u, line) h = elim (Bool-cases (register_offset address u == 0)) [
  | inl e ↦ rw (e) (read_data_lem (u, line) h)
  | inr e ↦ rw (e) (h, refl)
]

-- Nothing is lost or reordered between two accesses.
Ordered : List ℕ → List Access → List ℕ → Uart × Interrupt → Type 0
Ordered before more taken s =
    let (taken', u) = run_accesses more taken s in
    (taken' ++ u.rx_fifo ≡ before ++ all_received more) × IsReported u

run_accesses-Ordered :
    (more : List Access) (taken : List ℕ) (s : Uart × Interrupt)
    → IsReported s.0
    → Ordered (taken ++ s.0.rx_fifo) more taken s
unfolding run_accesses Ordered
run_accesses-Ordered [] taken s h = (sym (append-nil (taken ++ s.0.rx_fifo)), h)
run_accesses-Ordered (received byte ∷ more) taken s h =
    let (queue, reported) = receive_byte_lem byte s in
    let (kept, last) = run_accesses-Ordered more taken (receive_byte byte s) reported in
    (
      kept
          ∙ ap (λ q. (taken ++ q) ++ all_received more) queue
          ∙ ap (λ q. q ++ all_received more) (sym (append_assoc taken s.0.rx_fifo (byte ∷ [])))
          ∙ append_assoc (taken ++ s.0.rx_fifo) (byte ∷ []) (all_received more),
      last,
    )
run_accesses-Ordered (was_read address ∷ more) taken s h =
    let (value, u, line) = read_register address s in
    let (reported, queue) = read_register_lem address s h in
    let (kept, last) = run_accesses-Ordered more (taken ++ given address s) (u, line) reported in
    (
      kept
          ∙ ap (λ q. q ++ all_received more)
              (append_assoc taken (given address s) u.rx_fifo ∙ ap (λ q. taken ++ q) (sym queue)),
      last,
    )
run_accesses-Ordered (written address value ∷ more) taken s h =
    let (queue, status) = write_register-kept address value s in
    let reported =
      ap (λ (n : ℕ). nz (bit_and n 1)) status ∙ h ∙ sym (ap (λ q. not (null q)) queue) in
    let (kept, last) = run_accesses-Ordered more taken (write_register address value s) reported in
    (kept ∙ ap (λ q. (taken ++ q) ++ all_received more) queue, last)

-- Whatever is received, read and written from the start on, the bytes that the processor read while
-- the status showed data, and then the bytes of the queue, are the bytes received, in their order;
-- and the status shows data exactly when the queue has some.
pub run_accesses_lem :
    (es : List Access) (base : ℕ) (line : Interrupt)
    → let (taken, u) = run_accesses es [] (uart_at base, line) in
      (taken ++ u.rx_fifo ≡ all_received es)
      × (nz (bit_and u.line_status_register 1) ≡ not (null u.rx_fifo))
unfolding uart_at Ordered
run_accesses_lem es base line = run_accesses-Ordered es [] (uart_at base, line) refl
