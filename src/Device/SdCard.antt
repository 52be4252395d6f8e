-- ===== src/Device/SdCard.antt =====
-- emulator/sd_card_spi.h and .cc: an SD card on the SPI bus. Its image is a stream on a file, modelled as the
-- file's bytes; a stream that cannot be positioned reads nothing.
pub mod Transfer
pub mod Sound
pub mod Blocks
pub mod RoundTrip
use hd6301_thing.Common.{
  ℕ, zero, suc, ◌+◌, ◌-◌, ◌*◌, ◌/◌, ◌%◌, Bool, true, false, ◌==◌, ◌&&◌, ltb, leb, bit_and, bit_or,
  not, if◌then◌else◌, List, [], ◌∷◌, ◌++◌, length, null, switch, u8, u32, ◌<<<◌, Option, none, some,
  take, drop, replicate,
}

pub data CardState : Type 0 where
  undefined : CardState
  idle : CardState
  ready : CardState
  command : CardState
  response : CardState
  data_token : CardState
  block_data : CardState

pub record Command : Type 0 where
  pub number : ℕ
  pub argument : ℕ
  pub crc : ℕ

pub record SdCard : Type 0 where
  pub card_image : List ℕ
  pub block_count : ℕ
  pub enabled : Bool
  pub is_ready : Bool
  pub next_is_app_command : Bool
  pub write_address : ℕ
  pub card_state : CardState
  pub next_card_state : CardState
  pub input_buffer : List ℕ
  pub response_queue : List ℕ

abbrev pub r1_in_idle_state : ℕ
r1_in_idle_state = 0x01

abbrev pub r1_illegal_command : ℕ
r1_illegal_command = 0x04

abbrev pub r1_command_crc_error : ℕ
r1_command_crc_error = 0x08

abbrev pub r1_parameter_error : ℕ
r1_parameter_error = 0x40

abbrev pub data_error_token_error : ℕ
data_error_token_error = 0x01

abbrev pub block_size : ℕ
block_size = 512

unfoldable pub set_image : List ℕ → SdCard → SdCard
set_image image card = record card { card_image = image; block_count = length image / block_size }

-- A card at construction, given an image by `set_image`.
unfoldable pub card_of : List ℕ → SdCard
card_of image = record {
  card_image = image;
  block_count = length image / block_size;
  enabled = false;
  is_ready = false;
  next_is_app_command = false;
  write_address = 0;
  card_state = idle;
  next_card_state = idle;
  input_buffer = [];
  response_queue = [];
}

-- `Command::create`.
unfoldable pub create_command : List ℕ → Option Command
create_command (b0 ∷ b1 ∷ b2 ∷ b3 ∷ b4 ∷ b5 ∷ []) = some (record {
  number = b0;
  argument = bit_or (bit_or (bit_or (b1 <<< 24) (b2 <<< 16)) (b3 <<< 8)) b4;
  crc = b5;
})
create_command bytes = none

-- `response_queue_.push`, once for each byte.
unfoldable pub push : List ℕ → SdCard → SdCard
push bytes card = record card { response_queue = card.response_queue ++ bytes }

unfoldable pub in_idle : SdCard → ℕ
in_idle card = if card.is_ready then 0 else r1_in_idle_state

-- `address >= block_count_`, where the address is an `int32_t`: from 2 ^ 31 it is negative.
unfoldable pub beyond_end : ℕ → SdCard → Bool
beyond_end argument card = ltb argument 0x80000000 && leb card.block_count argument

-- The `block_size` bytes at a position computed in `int`, which C++ leaves undefined when it
-- overflows, and which wraps here; nothing is read at a negative position.
unfoldable pub read_block : ℕ → SdCard → List ℕ
read_block argument card =
    let position = u32 (argument * block_size) in
    if ltb position 0x80000000 then take block_size (drop position card.card_image) else []

-- Command 17, with the address in range.
unfoldable pub respond_with : List ℕ → SdCard → SdCard
unfolding push
respond_with block card =
    if length block == block_size
    then push (0 ∷ 0xfe ∷ block ++ 0 ∷ 0 ∷ []) card
    else push (0 ∷ data_error_token_error ∷ []) card

unfoldable pub read_single_block : ℕ → SdCard → SdCard
unfolding respond_with push beyond_end read_block
read_single_block argument card =
    if not card.is_ready
    then push (bit_or r1_illegal_command r1_in_idle_state ∷ []) card
    else (if beyond_end argument card
        then push (r1_parameter_error ∷ []) card
        else respond_with (read_block argument card) card)

-- Command 24.
unfoldable pub write_block : ℕ → SdCard → SdCard
unfolding push beyond_end
write_block argument card =
    if not card.is_ready
    then push (bit_or r1_illegal_command r1_in_idle_state ∷ []) card
    else (if beyond_end argument card
        then push (r1_parameter_error ∷ []) card
        else record (push (0 ∷ []) card) { next_card_state = data_token; write_address = argument })

-- The cases of `handle_command` for commands that are not app commands.
unfoldable pub basic_cases : Command → SdCard → List (ℕ × SdCard)
unfolding push in_idle read_single_block write_block
basic_cases c card =
    (
      0,
      push
          ((if c.crc == 0x95
              then r1_in_idle_state
              else bit_or r1_in_idle_state r1_command_crc_error)
            ∷ [])
          (record card { is_ready = false }),
    )
    ∷ (8, push (r1_in_idle_state ∷ 0 ∷ 0 ∷ 1 ∷ bit_and c.argument 0xff ∷ []) card)
    ∷ (17, read_single_block c.argument card)
    ∷ (24, write_block c.argument card)
    ∷ (55, record (push (in_idle card ∷ []) card) { next_is_app_command = true })
    ∷ (58, push (in_idle card ∷ (if card.is_ready then 0xc0 else 0) ∷ 0xff ∷ 0x80 ∷ 0 ∷ []) card)
    ∷ []

unfoldable pub basic_command : Command → SdCard → SdCard
unfolding basic_cases push in_idle
basic_command c card =
    switch (bit_and c.number 0x3f) (basic_cases c card)
      (push (bit_or r1_illegal_command (in_idle card) ∷ []) card)

unfoldable pub app_command : Command → SdCard → SdCard
unfolding push
app_command c card =
    let card1 = record card { next_is_app_command = false } in
    if bit_and c.number 0x3f == 41
    then push (0 ∷ []) (record card1 { is_ready = true })
    else push (0xff ∷ []) card1

unfoldable pub handle_command : Command → SdCard → SdCard
unfolding basic_command app_command
handle_command c card =
    if card.next_is_app_command then app_command c card else basic_command c card

-- `seekp` and `write` on a file, which grows when the position is past its end.
unfoldable pub write_at : ℕ → List ℕ → List ℕ → List ℕ
write_at zero [] image = image
write_at zero (b ∷ bs) [] = b ∷ write_at zero bs []
write_at zero (b ∷ bs) (x ∷ image) = b ∷ write_at zero bs image
write_at (suc n) bs [] = 0 ∷ write_at n bs []
write_at (suc n) bs (x ∷ image) = x ∷ write_at n bs image

-- A command that cannot be parsed is logged.
unfoldable pub run_command : Option Command → SdCard → SdCard
unfolding handle_command
run_command none card = record card { card_state = idle }
run_command (some c) card = record (handle_command c card) { card_state = response }

-- A byte of the command; the sixth completes it.
unfoldable pub command_byte : ℕ → SdCard → SdCard
unfolding create_command run_command
command_byte value card =
    let card1 = record card { input_buffer = card.input_buffer ++ value ∷ [] } in
    if length card1.input_buffer == 6
    then run_command (create_command card1.input_buffer) (record card1 { input_buffer = [] })
    else card1

unfoldable pub next_state : CardState → SdCard → SdCard
next_state undefined card = record card { card_state = if card.enabled then ready else idle }
next_state state card = record card { card_state = state; next_card_state = undefined }

unfoldable pub response_byte : List ℕ → SdCard → ℕ × SdCard
unfolding next_state
response_byte [] card = (0xff, card)
response_byte (front ∷ rest) card =
    let card1 = record card { response_queue = rest } in
    (front, if null rest then next_state card1.next_card_state card1 else card1)

unfoldable pub token_byte : ℕ → SdCard → SdCard
token_byte value card =
    if value == 0xfe then record card { input_buffer = []; card_state = block_data } else card

-- A byte of the block, or of the two bytes of its checksum; the last one writes it.
unfoldable pub data_byte : ℕ → SdCard → SdCard
unfolding push write_at
data_byte value card =
    let card1 = record card { input_buffer = card.input_buffer ++ value ∷ [] } in
    if length card1.input_buffer == block_size + 2
    then push (0x05 ∷ 0 ∷ []) (record card1 {
      card_image =
          write_at (u32 (card1.write_address * block_size)) (take block_size card1.input_buffer)
            card1.card_image;
      input_buffer = [];
      card_state = response;
    })
    else card1

unfoldable pub byte_in : CardState → ℕ → SdCard → ℕ × SdCard
unfolding command_byte response_byte token_byte data_byte
byte_in undefined value card = (0, card)
byte_in idle value card = (0xff, card)
byte_in ready value card = (0xff, card)
byte_in command value card = (0xff, command_byte value card)
byte_in response value card = response_byte card.response_queue card
byte_in data_token value card = (0xff, token_byte value card)
byte_in block_data value card = (0xff, data_byte value card)

unfoldable pub handle_byte_in : ℕ → SdCard → ℕ × SdCard
unfolding byte_in
handle_byte_in value card =
    if card.enabled then byte_in card.card_state value card else (0xff, card)

-- Every state is followed by `command` when the card is enabled; those in which that is an error
-- are logged.
unfoldable pub handle_enable : Bool → SdCard → ℕ × SdCard
handle_enable enabled card = (
  0xff,
  if enabled
      then record card {
        enabled = true;
        input_buffer = [];
        response_queue = [];
        card_state = command;
      }
      else record card { enabled = false; card_state = if card.is_ready then ready else idle },
)

-- Bytes that arrive in turn, and what the card answers to each.
unfoldable pub feed : List ℕ → SdCard → List ℕ × SdCard
unfolding handle_byte_in
feed [] card = ([], card)
feed (b ∷ bs) card =
    let (answer, card1) = handle_byte_in b card in
    let (answers, card2) = feed bs card1 in (answer ∷ answers, card2)
