-- ===== src/Device/SdCard/Transfer.antt =====
-- The phases of a transfer, byte by byte (emulator/sd_card_spi.cc).
use hd6301_thing.Common.{
  ℕ, suc, ◌+◌, ◌*◌, ◌<◌, ◌≡◌, refl, sym, ap, ◌∙◌, arith, true, false, ◌==◌, List, [], ◌∷◌, ◌++◌,
  length, replicate, take, length-append, some, u32, ◌/◌, ◌%◌, ◌<<<◌, bit_or, bit_or_concat,
  append-nil, append_assoc,
}
use hd6301_thing.Device.SdCard.{
  response, block_data, Command, SdCard, next_state, response_byte, data_byte, byte_in,
  handle_byte_in, feed, write_at, push, handle_enable, create_command, run_command, command_byte,
  handle_command,
}
use hd6301_thing.Device.SdCard.Blocks.{take-length}

pub feed-append :
    (xs ys : List ℕ) (card : SdCard)
    → let (answers, card1) = feed xs card in
      let (more, card2) = feed ys card1 in feed (xs ++ ys) card ≡ (answers ++ more, card2)
unfolding feed
feed-append [] ys card = refl
feed-append (x ∷ xs) ys card =
    ap (λ (r : List ℕ × SdCard). ((handle_byte_in x card).0 ∷ r.0, r.1))
      (feed-append xs ys (handle_byte_in x card).1)

-- A response is given byte by byte, whatever comes in, and then the card is in its next state.
pub feed-response :
    (front : ℕ) (queue filler : List ℕ) (card : SdCard)
    → length filler ≡ suc (length queue)
    → feed filler
        (record card { enabled = true; card_state = response; response_queue = front ∷ queue })
      ≡ (
        front ∷ queue,
        next_state card.next_card_state
            (record card { enabled = true; card_state = response; response_queue = [] }),
      )
unfolding feed handle_byte_in byte_in response_byte
feed-response front [] [] card h = absurd (omega arith)
feed-response front [] (x ∷ []) card h = refl
feed-response front [] (x ∷ y ∷ filler) card h = absurd (omega arith)
feed-response front (b ∷ queue) [] card h = absurd (omega arith)
feed-response front (b ∷ queue) (x ∷ filler) card h =
    ap (λ (r : List ℕ × SdCard). (front ∷ r.0, r.1))
      (feed-response b queue filler card (omega arith))

data_byte-collect :
    (value : ℕ) (card : SdCard) (left : ℕ)
    → length card.input_buffer + suc left < 514
    → data_byte value card ≡ record card { input_buffer = card.input_buffer ++ value ∷ [] }
unfolding data_byte
data_byte-collect value card left h = rw (unfinished) refl
  where
    unfinished : (length (card.input_buffer ++ value ∷ []) == 514) ≡ false
    unfinished = let size = length-append card.input_buffer (value ∷ []) in ground arith

-- The last byte of the checksum.
data_byte-last :
    (value : ℕ) (card : SdCard)
    → length card.input_buffer ≡ 513
    → data_byte value card ≡ record card {
      card_state = response;
      input_buffer = [];
      card_image =
          write_at
            (u32 (card.write_address * 512))
            (take 512 (card.input_buffer ++ value ∷ []))
            card.card_image;
      response_queue = card.response_queue ++ 5 ∷ 0 ∷ [];
    }
unfolding data_byte push
data_byte-last value card h = rw (finished) refl
  where
    finished : (length (card.input_buffer ++ value ∷ []) == 514) ≡ true
    finished = let size = length-append card.input_buffer (value ∷ []) in ground arith

-- The bytes of a block are collected,
feed-block :
    (bytes buffer : List ℕ) (card : SdCard)
    → length buffer + length bytes < 514
    → feed bytes (record card { enabled = true; card_state = block_data; input_buffer = buffer })
      ≡ (
        replicate (length bytes) 0xff,
        record card { enabled = true; card_state = block_data; input_buffer = buffer ++ bytes },
      )
unfolding feed handle_byte_in byte_in data_byte
feed-block [] buffer card h =
    ap
      (λ input. ([], record card { enabled = true; card_state = block_data; input_buffer = input }))
      (sym (append-nil buffer))
feed-block (b ∷ bytes) buffer card h =
    let here = record card { enabled = true; card_state = block_data; input_buffer = buffer } in
    let answers = replicate (length bytes) 0xff in
    ap (λ (next : SdCard). (0xff ∷ (feed bytes next).0, (feed bytes next).1))
      (data_byte-collect b here (length bytes) h)
    ∙ ap (λ (r : List ℕ × SdCard). (0xff ∷ r.0, r.1))
        (feed-block bytes (buffer ++ b ∷ []) card (one_more b bytes buffer h))
    ∙ ap
        (λ input. (
          0xff ∷ answers,
          record card { enabled = true; card_state = block_data; input_buffer = input },
        ))
        (append_assoc buffer (b ∷ []) bytes)
  where
    one_more :
        (b : ℕ) (bytes buffer : List ℕ)
        → length buffer + suc (length bytes) < 514
        → length (buffer ++ b ∷ []) + length bytes < 514
    one_more b bytes buffer h = omega (arith, length-append buffer (b ∷ []))

-- and the last one of the checksum writes the block.
pub feed-data :
    (block : List ℕ) (c1 c2 : ℕ) (card : SdCard)
    → length block ≡ 512
    → (feed
        (block ++ c1 ∷ c2 ∷ [])
        (record card { enabled = true; card_state = block_data; input_buffer = [] })).1
      ≡ record card {
        enabled = true;
        card_state = response;
        input_buffer = [];
        card_image = write_at (u32 (card.write_address * 512)) block card.card_image;
        response_queue = card.response_queue ++ 5 ∷ 0 ∷ [];
      }
unfolding feed handle_byte_in byte_in
feed-data block c1 c2 card h =
    let start = record card { enabled = true; card_state = block_data; input_buffer = [] } in
    let collected = record card {
      enabled = true;
      card_state = block_data;
      input_buffer = block ++ c1 ∷ [];
    } in
    ap (λ bytes. (feed bytes start).1) (sym (append_assoc block (c1 ∷ []) (c2 ∷ [])))
    ∙ ap (λ (r : List ℕ × SdCard). r.1) (feed-append (block ++ c1 ∷ []) (c2 ∷ []) start)
    ∙ ap (λ (r : List ℕ × SdCard). (feed (c2 ∷ []) r.1).1)
        (feed-block (block ++ c1 ∷ []) [] card below)
    ∙ data_byte-last c2 collected full
    ∙ ap
        (λ bytes. record card {
          enabled = true;
          card_state = response;
          input_buffer = [];
          card_image = write_at (u32 (card.write_address * 512)) bytes card.card_image;
          response_queue = card.response_queue ++ 5 ∷ 0 ∷ [];
        })
        taken
  where
    full : length (block ++ c1 ∷ []) ≡ 513
    full = omega (arith, length-append block (c1 ∷ []))

    below : 0 + length (block ++ c1 ∷ []) < 514
    below = omega (arith, length-append block (c1 ∷ []))

    taken : take 512 ((block ++ c1 ∷ []) ++ c2 ∷ []) ≡ block
    taken =
        ap (take 512) (append_assoc block (c1 ∷ []) (c2 ∷ []))
        ∙ ap (λ n. take n (block ++ c1 ∷ c2 ∷ [])) (sym h)
        ∙ take-length block (c1 ∷ c2 ∷ [])

-- The six bytes of a request for the command `number`.
abbrev pub request : ℕ → ℕ → List ℕ
request number argument =
    (0x40 + number)
    ∷ (argument / 16777216 % 256)
    ∷ (argument / 65536 % 256)
    ∷ (argument / 256 % 256)
    ∷ (argument % 256)
    ∷ 0
    ∷ []

abbrev pub requested : ℕ → ℕ → Command
requested number argument = record { number = 0x40 + number; argument = argument; crc = 0 }

-- Four bytes, put together as the card does it.
big_endian :
    (b1 b2 b3 b4 : ℕ)
    → b1 < 256
    → b2 < 256
    → b3 < 256
    → b4 < 256
    → bit_or (bit_or (bit_or (b1 <<< 24) (b2 <<< 16)) (b3 <<< 8)) b4
      ≡ b1 * 16777216 + b2 * 65536 + b3 * 256 + b4
big_endian b1 b2 b3 b4 h1 h2 h3 h4 =
    ap (λ (a : ℕ). bit_or (bit_or a (b3 * 256)) b4)
      (bit_or_concat 24 8 b1 (b2 * 65536) h1 (omega arith) ∙ regroup b1 b2)
    ∙ ap (λ (a : ℕ). bit_or a b4)
        (bit_or_concat 16 16 (b1 * 256 + b2) (b3 * 256) (omega arith) (omega arith)
          ∙ regroup_low (b1 * 256 + b2) b3)
    ∙ bit_or_concat 8 24 ((b1 * 256 + b2) * 256 + b3) b4 (omega arith) (omega arith)
    ∙ expanded b1 b2 b3 b4
  where
    regroup : (b1 b2 : ℕ) → b1 * 16777216 + b2 * 65536 ≡ (b1 * 256 + b2) * 65536
    regroup b1 b2 = omega arith

    regroup_low : (n b3 : ℕ) → n * 65536 + b3 * 256 ≡ (n * 256 + b3) * 256
    regroup_low n b3 = omega arith

    expanded :
        (b1 b2 b3 b4 : ℕ)
        → ((b1 * 256 + b2) * 256 + b3) * 256 + b4 ≡ b1 * 16777216 + b2 * 65536 + b3 * 256 + b4
    expanded b1 b2 b3 b4 = omega arith

create_command-request :
    (number argument : ℕ)
    → argument < 4294967296
    → create_command (request number argument) ≡ some (requested number argument)
unfolding create_command
create_command-request number argument h =
    ap (λ a. some (requested number a))
      (big_endian (argument / 16777216 % 256) (argument / 65536 % 256) (argument / 256 % 256)
          (argument % 256) (omega arith) (omega arith) (omega arith) (omega arith)
        ∙ whole argument h)
  where
    whole :
        (n : ℕ)
        → n < 4294967296
        → n / 16777216 % 256 * 16777216 + n / 65536 % 256 * 65536 + n / 256 % 256 * 256 + n % 256
          ≡ n
    whole n h = omega arith

-- A command is carried out when its six bytes have come.
pub feed-request :
    (number argument : ℕ) (card : SdCard)
    → argument < 4294967296
    → let selected = (handle_enable true card).1 in
      feed (request number argument) selected ≡ (
        replicate 6 0xff,
        record (handle_command (requested number argument) selected) { card_state = response },
      )
unfolding feed handle_byte_in byte_in command_byte run_command handle_enable
feed-request number argument card h =
    let selected = (handle_enable true card).1 in
    ap (λ c. (replicate 6 0xff, run_command c selected)) (create_command-request number argument h)
