-- ===== src/Device/Keyboard/Queue.antt =====
-- The bytes of a key reach the processor one by one (emulator/ps2_keyboard_6301.cc).
use hd6301_thing.Common.{
  ℕ, zero, suc, ◌<◌, ◌≡◌, ◌≢◌, refl, ap, ◌∙◌, arith, true, ◌==◌, bit_or, List, [], ◌∷◌, length,
  get_or, Bool-cases, inl, inr, bit_and_zero, bit_or_zero_left,
}
use hd6301_thing.Device.Interrupt.{IsConsistent, set_interrupt_lem, clear_interrupt_lem}
use hd6301_thing.Device.Port.{provide_inputs}
use hd6301_thing.Device.Keyboard.{
  Keyboard, offer, clear_keyboard_interrupt, release_status, advance, status_changed, offer_front,
  enqueue,
}

module _ {V : Type 0} where
  -- The processor pulls the clear bit low and then high.
  abbrev pub strobe : Keyboard V → Keyboard V
  strobe k = status_changed 1 (status_changed 0 k)

  abbrev pub strobes : ℕ → Keyboard V → Keyboard V
  strobes zero k = k
  strobes (suc n) k = strobes n (strobe k)

  -- The byte `b` is on the data port with its interrupt pending, and `rest` are to follow.
  abbrev pub Offers : ℕ → List ℕ → Keyboard V → Type 0
  Offers b rest k =
      (k.queue ≡ b ∷ rest)
      × (k.data_port.input_register ≡ b)
      × (k.interrupt_id ≢ 0)
      × IsConsistent k.irq

  -- Nothing is pending.
  abbrev pub IsIdle : Keyboard V → Type 0
  IsIdle k = (k.queue ≡ []) × (k.interrupt_id ≡ 0) × IsConsistent k.irq

  offer_lem :
      (b : ℕ) (rest : List ℕ) (k : Keyboard V)
      → k.queue ≡ b ∷ rest
      → IsConsistent k.irq
      → Offers b rest (offer b k)
  unfolding offer provide_inputs
  offer_lem b rest k q consistent =
      let set = set_interrupt_lem k.irq consistent in
      (
        q,
        ap (λ n. bit_or n b) (bit_and_zero k.data_port.input_register) ∙ bit_or_zero_left b,
        set.2,
        set.0,
      )

  cleared_lem :
      (k : Keyboard V)
      → IsConsistent k.irq
      → let k' = clear_keyboard_interrupt k in
        (k'.queue ≡ k.queue) × (k'.interrupt_id ≡ 0) × IsConsistent k'.irq
  unfolding clear_keyboard_interrupt
  cleared_lem k consistent =
      let cleared = clear_interrupt_lem k.interrupt_id k.irq consistent in
      elim (Bool-cases (k.interrupt_id == 0)) [
        | inl e ↦ rw (e) (refl, is_zero e, consistent)
        | inr e ↦ rw (e) (refl, refl, cleared.0)
      ]
    where
      is_zero : (k.interrupt_id == 0) ≡ true → k.interrupt_id ≡ 0
      is_zero e = ground arith

  -- The keyboard before the next byte is offered.
  acknowledged : Keyboard V → Keyboard V
  acknowledged k = release_status (clear_keyboard_interrupt (record k { interrupt_clear = 0 }))

  acknowledged_lem :
      (k : Keyboard V)
      → IsConsistent k.irq
      → let k' = acknowledged k in
        (k'.queue ≡ k.queue) × (k'.interrupt_id ≡ 0) × IsConsistent k'.irq
  unfolding acknowledged release_status
  acknowledged_lem k consistent = cleared_lem (record k { interrupt_clear = 0 }) consistent

  strobe_eq :
      (k : Keyboard V)
      → strobe k ≡ record (advance (acknowledged k).queue (acknowledged k)) { interrupt_clear = 1 }
  unfolding status_changed acknowledged
  strobe_eq k = refl

  strobe-Offers :
      (b c : ℕ) (rest : List ℕ) (k : Keyboard V) → Offers b (c ∷ rest) k → Offers c rest (strobe k)
  unfolding advance
  strobe-Offers b c rest k (q, shown, id, consistent) =
      let (same, none_pending, kept) = acknowledged_lem k consistent in
      let next = offer_lem c rest (record (acknowledged k) { queue = c ∷ rest }) refl kept in
      rw (strobe_eq k, same ∙ q) next

  strobe-IsIdle : (b : ℕ) (k : Keyboard V) → Offers b [] k → IsIdle (strobe k)
  unfolding advance
  strobe-IsIdle b k (q, shown, id, consistent) =
      let (same, none_pending, kept) = acknowledged_lem k consistent in
      rw (strobe_eq k, same ∙ q) (refl, none_pending, kept)

  enqueue-Offers :
      (b : ℕ) (rest : List ℕ) (k : Keyboard V) → IsIdle k → Offers b rest (enqueue (b ∷ rest) k)
  unfolding enqueue offer_front
  enqueue-Offers b rest k (q, id, consistent) =
      rw (id, q) (offer_lem b rest (record k { queue = b ∷ rest }) refl consistent)

  strobes-Offers :
      (n : ℕ) (b : ℕ) (rest : List ℕ) (k : Keyboard V)
      → n < suc (length rest)
      → Offers b rest k
      → (strobes n k).data_port.input_register ≡ get_or (b ∷ rest) n 0
  strobes-Offers zero b rest k h offers = offers.1
  strobes-Offers (suc n) b [] k h offers = absurd (omega arith)
  strobes-Offers (suc n) b (c ∷ rest) k h offers =
      strobes-Offers n c rest (strobe k) (omega arith) (strobe-Offers b c rest k offers)

  strobes-IsIdle :
      (b : ℕ) (rest : List ℕ) (k : Keyboard V)
      → Offers b rest k
      → IsIdle (strobes (suc (length rest)) k)
  strobes-IsIdle b [] k offers = strobe-IsIdle b k offers
  strobes-IsIdle b (c ∷ rest) k offers =
      strobes-IsIdle c rest (strobe k) (strobe-Offers b c rest k offers)

  -- The bytes of a key that is pressed at an idle keyboard are on the data port in their order: byte
  -- `n` after `n` pulses of the clear bit. After a pulse for each of them the keyboard is idle again.
  pub enqueue_lem :
      (n b : ℕ) (rest : List ℕ) (k : Keyboard V)
      → n < suc (length rest)
      → IsIdle k
      → ((strobes n (enqueue (b ∷ rest) k)).data_port.input_register ≡ get_or (b ∷ rest) n 0)
        × IsIdle (strobes (suc (length rest)) (enqueue (b ∷ rest) k))
  enqueue_lem n b rest k h idle =
      let offers = enqueue-Offers b rest k idle in
      (
        strobes-Offers n b rest (enqueue (b ∷ rest) k) h offers,
        strobes-IsIdle b rest (enqueue (b ∷ rest) k) offers,
      )
