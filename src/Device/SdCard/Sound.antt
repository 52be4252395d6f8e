-- ===== src/Device/SdCard/Sound.antt =====
-- The states of the card, and the sizes of its buffers (emulator/sd_card_spi.cc).
use hd6301_thing.Common.{
  ℕ, ◌<◌, ◌≤◌, ◌≡◌, refl, arith, Bool, true, false, ◌==◌, bit_and, bit_or, if◌then◌else◌, List, [],
  ◌∷◌, ◌++◌, length, Option, none, some, length-append, switch-All, ◌▹◌, Bool-cases, inl, inr, ap,
}
use hd6301_thing.Device.SdCard.{
  CardState, undefined, idle, ready, command, response, data_token, block_data, Command, SdCard,
  push, respond_with, read_block, read_single_block, write_block, basic_command, basic_cases,
  app_command, handle_command, create_command, command_byte, next_state, response_byte, token_byte,
  data_byte, byte_in, in_idle, run_command, handle_byte_in, handle_enable, card_of,
}

-- What each state promises of the bytes that came in and of those that are to go out.
abbrev pub StateOk : CardState → List ℕ → List ℕ → Type 0
StateOk undefined input output = ⊥
StateOk idle input output = Unit
StateOk ready input output = Unit
StateOk command input output = (length input < 6) × (length output ≡ 0)
StateOk response input output = (0 < length output) × (length output ≤ 516)
StateOk data_token input output = length output ≡ 0
StateOk block_data input output = (length input < 514) × (length output ≡ 0)

-- The states that can follow a response.
abbrev pub NextOk : CardState → Type 0
NextOk undefined = Unit
NextOk idle = Unit
NextOk data_token = Unit
NextOk ready = ⊥
NextOk command = ⊥
NextOk response = ⊥
NextOk block_data = ⊥

abbrev pub IsSound : SdCard → Type 0
IsSound card =
    StateOk card.card_state card.input_buffer card.response_queue × NextOk card.next_card_state

-- A command has answered.
abbrev Answered : SdCard → Type 0
Answered card =
    (0 < length card.response_queue)
    × (length card.response_queue ≤ 516)
    × NextOk card.next_card_state

push-Answered :
    (b : ℕ) (bytes : List ℕ) (card : SdCard)
    → length card.response_queue ≡ 0
    → length bytes < 516
    → NextOk card.next_card_state
    → Answered (push (b ∷ bytes) card)
unfolding push
push-Answered b bytes card h hb next =
    let sum = length-append card.response_queue (b ∷ bytes) in (omega arith, omega arith, next)

length-block : (block : List ℕ) → length block ≡ 512 → length (0xfe ∷ block ++ 0 ∷ 0 ∷ []) < 516
length-block block h = omega (arith, length-append block (0 ∷ 0 ∷ []))

respond_with-Answered :
    (block : List ℕ) (card : SdCard)
    → length card.response_queue ≡ 0
    → NextOk card.next_card_state
    → Answered (respond_with block card)
unfolding respond_with
respond_with-Answered block card h next =
    let good = push-Answered 0 (0xfe ∷ block ++ 0 ∷ 0 ∷ []) card h in
    let bad = push-Answered 0 (1 ∷ []) card h (omega arith) next in
    let size = length-block block in ground arith

read_single_block-Answered :
    (argument : ℕ) (card : SdCard)
    → length card.response_queue ≡ 0
    → NextOk card.next_card_state
    → Answered (read_single_block argument card)
unfolding read_single_block
read_single_block-Answered argument card h next =
    let found = respond_with-Answered (read_block argument card) card h next in
    let illegal = push-Answered 5 [] card h (omega arith) next in
    let wrong = push-Answered 0x40 [] card h (omega arith) next in ground arith

write_block-Answered :
    (argument : ℕ) (card : SdCard)
    → length card.response_queue ≡ 0
    → NextOk card.next_card_state
    → Answered (write_block argument card)
unfolding write_block
write_block-Answered argument card h next =
    let accepted = push-Answered 0 [] card h (omega arith) next in
    let illegal = push-Answered 5 [] card h (omega arith) next in
    let wrong = push-Answered 0x40 [] card h (omega arith) next in ground arith

basic_command-Answered :
    (c : Command) (card : SdCard)
    → length card.response_queue ≡ 0
    → NextOk card.next_card_state
    → Answered (basic_command c card)
unfolding basic_command basic_cases
basic_command-Answered c card h next =
    switch-All Answered (bit_and c.number 0x3f) (basic_cases c card)
      (push (bit_or 4 (in_idle card) ∷ []) card)
      (push-Answered (bit_or 4 (in_idle card)) [] card h (omega arith) next)
      (push-Answered (if c.crc == 0x95 then 1 else 9) [] (record card { is_ready = false }) h
          (omega arith) next
        ▹ push-Answered 1 (0 ∷ 0 ∷ 1 ∷ bit_and c.argument 0xff ∷ []) card h (omega arith) next
        ▹ read_single_block-Answered c.argument card h next
        ▹ write_block-Answered c.argument card h next
        ▹ push-Answered (in_idle card) [] card h (omega arith) next
        ▹ push-Answered (in_idle card) ((if card.is_ready then 0xc0 else 0) ∷ 0xff ∷ 0x80 ∷ 0 ∷ [])
            card h (omega arith) next
        ▹ tt {0})

app_command-Answered :
    (c : Command) (card : SdCard)
    → length card.response_queue ≡ 0
    → NextOk card.next_card_state
    → Answered (app_command c card)
unfolding app_command
app_command-Answered c card h next =
    let card1 = record card { next_is_app_command = false } in
    let ok = push-Answered 0 [] (record card1 { is_ready = true }) h (omega arith) next in
    let other = push-Answered 0xff [] card1 h (omega arith) next in ground arith

handle_command-Answered :
    (c : Command) (card : SdCard)
    → length card.response_queue ≡ 0
    → NextOk card.next_card_state
    → Answered (handle_command c card)
unfolding handle_command
handle_command-Answered c card h next =
    let app = app_command-Answered c card h next in
    let basic = basic_command-Answered c card h next in ground arith

run_command-IsSound :
    (c : Option Command) (card : SdCard)
    → length card.response_queue ≡ 0
    → NextOk card.next_card_state
    → IsSound (run_command c card)
unfolding run_command
run_command-IsSound none card h next = (tt, next)
run_command-IsSound (some c) card h next =
    let (some_bytes, bounded, ok) = handle_command-Answered c card h next in
    ((some_bytes, bounded), ok)

command_byte-IsSound :
    (value : ℕ) (card : SdCard)
    → length card.input_buffer < 6
    → length card.response_queue ≡ 0
    → NextOk card.next_card_state
    → card.card_state ≡ command
    → IsSound (command_byte value card)
unfolding command_byte
command_byte-IsSound value card hi ho next state =
    let bytes = card.input_buffer ++ value ∷ [] in
    let card2 = record card { input_buffer = [] } in
    let size = length-append card.input_buffer (value ∷ []) in
    elim (Bool-cases (length bytes == 6)) [
      | inl e ↦ rw (e) (run_command-IsSound (create_command bytes) card2 ho next)
      | inr e ↦ rw (e, state) ((ground arith, ho), next)
    ]

token_byte-IsSound :
    (value : ℕ) (card : SdCard)
    → card.card_state ≡ data_token
    → length card.response_queue ≡ 0
    → NextOk card.next_card_state
    → IsSound (token_byte value card)
unfolding token_byte
token_byte-IsSound value card state h next = elim (Bool-cases (value == 0xfe)) [
  | inl e ↦ rw (e) ((omega arith, h), next)
  | inr e ↦ rw (e, state) (h, next)
]

data_byte-IsSound :
    (value : ℕ) (card : SdCard)
    → card.card_state ≡ block_data
    → length card.input_buffer < 514
    → length card.response_queue ≡ 0
    → NextOk card.next_card_state
    → IsSound (data_byte value card)
unfolding data_byte push
data_byte-IsSound value card state hi h next =
    let size = length-append card.input_buffer (value ∷ []) in
    let out = length-append card.response_queue (5 ∷ 0 ∷ []) in
    elim (Bool-cases (length (card.input_buffer ++ value ∷ []) == 514)) [
      | inl e ↦ rw (e) ((omega arith, omega arith), next)
      | inr e ↦ rw (e, state) ((ground arith, h), next)
    ]

free_state : (b : Bool) (input output : List ℕ) → StateOk (if b then ready else idle) input output
free_state true input output = tt
free_state false input output = tt

next_state-IsSound :
    (next : CardState) (card : SdCard)
    → NextOk next
    → card.next_card_state ≡ next
    → card.response_queue ≡ []
    → IsSound (next_state next card)
unfolding next_state
next_state-IsSound undefined card ok e h =
    (free_state card.enabled card.input_buffer card.response_queue, rw (e) tt)
next_state-IsSound idle card ok e h = (tt, tt)
next_state-IsSound data_token card ok e h = (ap length h, tt)
next_state-IsSound ready card ok e h = elim ok [ ]
next_state-IsSound command card ok e h = elim ok [ ]
next_state-IsSound response card ok e h = elim ok [ ]
next_state-IsSound block_data card ok e h = elim ok [ ]

response_byte-IsSound :
    (queue : List ℕ) (card : SdCard)
    → card.card_state ≡ response
    → 0 < length queue
    → length queue ≤ 516
    → NextOk card.next_card_state
    → IsSound (response_byte queue card).1
unfolding response_byte
response_byte-IsSound [] card state h1 h2 next = absurd (omega arith)
response_byte-IsSound (front ∷ []) card state h1 h2 next =
    next_state-IsSound card.next_card_state (record card { response_queue = [] }) next refl refl
response_byte-IsSound (front ∷ b ∷ rest) card state h1 h2 next =
    rw (state) ((omega arith, omega arith), next)

byte_in-IsSound :
    (state : CardState) (value : ℕ) (card : SdCard)
    → card.card_state ≡ state
    → StateOk state card.input_buffer card.response_queue
    → NextOk card.next_card_state
    → IsSound (byte_in state value card).1
unfolding byte_in
byte_in-IsSound undefined value card e ok next = elim ok [ ]
byte_in-IsSound idle value card e ok next = rw (e) (tt, next)
byte_in-IsSound ready value card e ok next = rw (e) (tt, next)
byte_in-IsSound command value card e ok next = command_byte-IsSound value card ok.0 ok.1 next e
byte_in-IsSound response value card e ok next =
    response_byte-IsSound card.response_queue card e ok.0 ok.1 next
byte_in-IsSound data_token value card e ok next = token_byte-IsSound value card e ok next
byte_in-IsSound block_data value card e ok next = data_byte-IsSound value card e ok.0 ok.1 next

pub handle_byte_in-IsSound :
    (value : ℕ) (card : SdCard) → IsSound card → IsSound (handle_byte_in value card).1
unfolding handle_byte_in
handle_byte_in-IsSound value card (ok, next) = chosen card.enabled
  where
    chosen : (b : Bool) → IsSound (if b then byte_in card.card_state value card else (0xff, card)).1
    chosen true = byte_in-IsSound card.card_state value card refl ok next
    chosen false = (ok, next)

pub handle_enable-IsSound :
    (enabled : Bool) (card : SdCard) → IsSound card → IsSound (handle_enable enabled card).1
unfolding handle_enable
handle_enable-IsSound true card (ok, next) = ((omega arith, refl), next)
handle_enable-IsSound false card (ok, next) =
    (free_state card.is_ready card.input_buffer card.response_queue, next)

-- What the bus does to the card: it selects or deselects it, or passes a byte.
pub data Signal : Type 0 where
  select : Bool → Signal
  byte : ℕ → Signal

unfoldable pub signal : Signal → SdCard → SdCard
unfolding handle_byte_in handle_enable
signal (select enabled) card = (handle_enable enabled card).1
signal (byte value) card = (handle_byte_in value card).1

unfoldable pub signals : List Signal → SdCard → SdCard
unfolding signal
signals [] card = card
signals (s ∷ ss) card = signals ss (signal s card)

-- Whatever the bus does to a new card, the card is in one of its six states; it holds fewer than 6
-- bytes of a command and fewer than 514 of a block, and between 1 and 516 bytes of a response.
pub signals-IsSound : (ss : List Signal) (image : List ℕ) → IsSound (signals ss (card_of image))
unfolding card_of signals signal
signals-IsSound ss image = kept ss (card_of image) (tt, tt)
  where
    kept : (ss : List Signal) (card : SdCard) → IsSound card → IsSound (signals ss card)
    kept [] card h = h
    kept (select enabled ∷ ss) card h =
        kept ss (handle_enable enabled card).1 (handle_enable-IsSound enabled card h)
    kept (byte value ∷ ss) card h =
        kept ss (handle_byte_in value card).1 (handle_byte_in-IsSound value card h)
