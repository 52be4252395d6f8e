-- ===== src/Device/SdCard/RoundTrip.antt =====
-- Blocks written and read through the bytes of the bus (emulator/sd_card_spi.cc).
use hd6301_thing.Common.{
  ℕ, suc, ◌+◌, ◌*◌, ◌%◌, ◌<◌, ◌≤◌, ◌≡◌, ◌≢◌, ◌⊎◌, inl, inr, refl, sym, ap, ◌∙◌, arith, true, false,
  ◌==◌, ltb, List, [], ◌∷◌, ◌++◌, length, replicate, take, drop, u32, length-append, if◌then◌else◌,
  Bool-cases,
}
use hd6301_thing.Device.SdCard.{
  undefined, response, data_token, SdCard, push, beyond_end, read_block, respond_with,
  read_single_block, write_block, basic_cases, basic_command, handle_command, next_state,
  response_byte, token_byte, byte_in, handle_byte_in, handle_enable, feed, write_at,
}
use hd6301_thing.Device.SdCard.Blocks.{
  take-drop-write_at, take-drop-write_before, drop-write_at, length-take-drop,
}
use hd6301_thing.Device.SdCard.Transfer.{
  feed-append, feed-response, feed-data, feed-request, request, requested,
}

-- The card is selected, with its buffers empty.
abbrev pub select : SdCard → SdCard
select card = (handle_enable true card).1

-- The card takes commands for the block at `address`, which starts below 2 ^ 31.
abbrev pub Serves : SdCard → ℕ → Type 0
Serves card address =
    (card.is_ready ≡ true)
    × (card.next_is_app_command ≡ false)
    × (address < card.block_count)
    × (address < 4194304)

-- What the processor sends to write a block, and to read one with 516 bytes of filler.
abbrev pub write_request : ℕ → List ℕ → List ℕ
write_request address block = request 24 address ++ 0xff ∷ 0xfe ∷ block ++ 0xff ∷ 0xff ∷ []

in_range :
    (card : SdCard) (address : ℕ) → address < card.block_count → beyond_end address card ≡ false
unfolding beyond_end
in_range card address h = ground arith

-- The command of a write.
write_command_lem :
    (card : SdCard) (address : ℕ)
    → card.is_ready ≡ true
    → card.next_is_app_command ≡ false
    → beyond_end address (select card) ≡ false
    → handle_command (requested 24 address) (select card) ≡ record (select card) {
      response_queue = 0 ∷ [];
      next_card_state = data_token;
      write_address = address;
    }
unfolding handle_command basic_command basic_cases write_block push handle_enable
write_command_lem card address ok basic range = rw (basic, ok, range) refl

read_command_lem :
    (card : SdCard) (address : ℕ)
    → Serves card address
    → handle_command (requested 17 address) (select card)
      ≡ respond_with (read_block address card) (select card)
unfolding handle_command basic_command basic_cases read_single_block push handle_enable read_block
read_command_lem card address (ok, basic, range, small) =
    rw (basic, ok, in_range (select card) address range) refl

-- The card after a block was sent to it.
written : SdCard → ℕ → List ℕ → SdCard
written card address block = record (select card) {
  card_state = response;
  input_buffer = [];
  write_address = address;
  next_card_state = undefined;
  card_image = write_at (u32 (address * 512)) block card.card_image;
  response_queue = 5 ∷ 0 ∷ [];
}

feed-write_request :
    (card : SdCard) (address : ℕ) (block : List ℕ)
    → card.is_ready ≡ true
    → card.next_is_app_command ≡ false
    → beyond_end address (select card) ≡ false
    → address < 4294967296
    → length block ≡ 512
    → (feed (write_request address block) (select card)).1 ≡ written card address block
unfolding feed handle_byte_in byte_in response_byte next_state token_byte written handle_enable
feed-write_request card address block ok basic range wide h =
    let rest = 0xff ∷ 0xfe ∷ block ++ 0xff ∷ 0xff ∷ [] in
    ap (λ (r : List ℕ × SdCard). r.1) (feed-append (request 24 address) rest (select card))
    ∙ ap (λ (r : List ℕ × SdCard). (feed rest r.1).1) (feed-request 24 address card wide)
    ∙ ap (λ (c : SdCard). (feed rest (record c { card_state = response })).1)
        (write_command_lem card address ok basic range)
    ∙ feed-data block 0xff 0xff
        (record (written card address block) { card_image = card.card_image; response_queue = [] })
        h

-- What the card answers to a request for a block that it holds.
feed-read_request :
    (card : SdCard) (address : ℕ) (block filler : List ℕ)
    → Serves card address
    → read_block address card ≡ block
    → length block ≡ 512
    → length filler ≡ 516
    → (feed (request 17 address ++ filler) (select card)).0
      ≡ replicate 6 0xff ++ 0 ∷ 0xfe ∷ block ++ 0 ∷ 0 ∷ []
unfolding respond_with push handle_enable
feed-read_request card address block filler serves e h hf =
    ap (λ (r : List ℕ × SdCard). r.0) (feed-append (request 17 address) filler (select card))
    ∙ ap (λ (r : List ℕ × SdCard). r.0 ++ (feed filler r.1).0)
        (feed-request 17 address card (omega arith))
    ∙ ap (λ (c : SdCard). replicate 6 0xff ++ (feed filler (record c { card_state = response })).0)
        (read_command_lem card address serves
          ∙ ap (λ (b : List ℕ). respond_with b (select card)) e
          ∙ whole)
    ∙ ap (λ (r : List ℕ × SdCard). replicate 6 0xff ++ r.0)
        (feed-response 0 (0xfe ∷ block ++ 0 ∷ 0 ∷ []) filler (select card) filled)
  where
    whole :
        respond_with block (select card)
        ≡ record (select card) { response_queue = 0 ∷ 0xfe ∷ block ++ 0 ∷ 0 ∷ [] }
    whole = rw (h) refl

    filled : length filler ≡ suc (length (0xfe ∷ block ++ 0 ∷ 0 ∷ []))
    filled = omega (arith, length-append block (0 ∷ 0 ∷ []))

-- A block in the part of the image that can be positioned.
read_block_lem :
    (card : SdCard) (address : ℕ)
    → address < 4194304
    → read_block address card ≡ take 512 (drop (address * 512) card.card_image)
unfolding read_block
read_block_lem card address h = rw (small address h, positive) refl
  where
    small : (n : ℕ) → n < 4194304 → n * 512 % 4294967296 ≡ n * 512
    small n h = omega arith

    positive : ltb (address * 512) 0x80000000 ≡ true
    positive = ground arith

-- The image after the write, with its position computed.
image_written :
    (card : SdCard) (address : ℕ) (block : List ℕ)
    → address < 4194304
    → (written card address block).card_image ≡ write_at (address * 512) block card.card_image
unfolding written
image_written card address block h = ap (λ p. write_at p block card.card_image) (small address h)
  where
    small : (n : ℕ) → n < 4194304 → n * 512 % 4294967296 ≡ n * 512
    small n h = omega arith

-- The block `b` after `block` was written to `a`.
block_after : SdCard → ℕ → ℕ → List ℕ → List ℕ
block_after card a b block = if a == b then block else read_block b card

read_block-same :
    (card : SdCard) (a : ℕ) (block : List ℕ)
    → a < 4194304
    → length block ≡ 512
    → read_block a (written card a block) ≡ block
read_block-same card a block h hb =
    read_block_lem (written card a block) a h
    ∙ ap (λ image. take 512 (drop (a * 512) image)) (image_written card a block h)
    ∙ ap (λ n. take n (drop (a * 512) (write_at (a * 512) block card.card_image))) (sym hb)
    ∙ take-drop-write_at (a * 512) block card.card_image

apart : (a b : ℕ) → a ≢ b → (b * 512 + 512 ≤ a * 512) ⊎ (a * 512 + 512 ≤ b * 512)
apart a b ne = ground arith

read_block-other :
    (card : SdCard) (a b : ℕ) (block : List ℕ)
    → a < 4194304
    → b < 4194304
    → a ≢ b
    → a * 512 + 512 ≤ length card.card_image
    → b * 512 + 512 ≤ length card.card_image
    → length block ≡ 512
    → read_block b (written card a block) ≡ read_block b card
read_block-other card a b block ha hb ne la lb h =
    read_block_lem (written card a block) b hb
    ∙ ap (λ image. take 512 (drop (b * 512) image)) (image_written card a block ha)
    ∙ elsewhere (apart a b ne)
    ∙ sym (read_block_lem card b hb)
  where
    elsewhere :
        (b * 512 + 512 ≤ a * 512) ⊎ (a * 512 + 512 ≤ b * 512)
        → take 512 (drop (b * 512) (write_at (a * 512) block card.card_image))
          ≡ take 512 (drop (b * 512) card.card_image)
    elsewhere (inl before) =
        take-drop-write_before (b * 512) 512 (a * 512) block card.card_image before (omega arith)
    elsewhere (inr behind) =
        ap (take 512)
          (drop-write_at (b * 512) (a * 512) block card.card_image (omega arith) (omega arith))

-- Every block that is counted is in the image.
abbrev pub Holds : SdCard → Type 0
Holds card = card.block_count * 512 ≤ length card.card_image

read_block_lem-written :
    (card : SdCard) (a b : ℕ) (block : List ℕ)
    → Serves card a
    → Serves card b
    → Holds card
    → length block ≡ 512
    → (read_block b (written card a block) ≡ block_after card a b block)
      × (length (block_after card a b block) ≡ 512)
unfolding block_after
read_block_lem-written card a b block (ok, basic, ra, sa) (ok', basic', rb, sb) holds h =
    elim (Bool-cases (a == b)) [ inl e ↦ rw (e) (found e, h) | inr e ↦ rw (e) (other e, full) ]
  where
    found : (a == b) ≡ true → read_block b (written card a block) ≡ block
    found e =
        ap (λ n. read_block n (written card a block)) (same e) ∙ read_block-same card a block sa h
      where
        same : (a == b) ≡ true → b ≡ a
        same e = ground arith

    other : (a == b) ≡ false → read_block b (written card a block) ≡ read_block b card
    other e = read_block-other card a b block sa sb (differ e) (omega arith) (omega arith) h
      where
        differ : (a == b) ≡ false → a ≢ b
        differ e = ground arith

    full : length (read_block b card) ≡ 512
    full =
        ap length (read_block_lem card b sb)
        ∙ length-take-drop (b * 512) 512 card.card_image (omega arith)

-- After a block was written to `a`, a request for block `b` is answered with that block if `b` is
-- `a`, and with what stood there before if it is not. Both are in the image and start below 2 ^ 31.
pub write_request_lem :
    (card : SdCard) (a b : ℕ) (block filler : List ℕ)
    → Serves card a
    → Serves card b
    → Holds card
    → length block ≡ 512
    → length filler ≡ 516
    → let after = (feed (write_request a block) (select card)).1 in
      (feed (request 17 b ++ filler) (select after)).0
      ≡ replicate 6 0xff
        ++ 0 ∷ 0xfe ∷ (if a == b then block else take 512 (drop (b * 512) card.card_image))
        ++ 0 ∷ 0 ∷ []
unfolding block_after written handle_enable
write_request_lem card a b block filler wa wb holds h hf =
    let (found, full) = read_block_lem-written card a b block wa wb holds h in
    ap (λ (c : SdCard). (feed (request 17 b ++ filler) (select c)).0)
      (feed-write_request card a block wa.0 wa.1 (in_range (select card) a wa.2) (omega arith) h)
    ∙ feed-read_request (written card a block) b (block_after card a b block) filler wb found full
        hf
    ∙ ap (λ bytes. replicate 6 0xff ++ 0 ∷ 0xfe ∷ (if a == b then block else bytes) ++ 0 ∷ 0 ∷ [])
        (read_block_lem card b wb.3)

negative_range : (card : SdCard) (a : ℕ) → beyond_end (2147483648 + a) card ≡ false
unfolding beyond_end
negative_range card a = ground arith

-- A block that is written to the address 2 ^ 31 + a, which no image has, replaces block `a`, for an
-- `a` in the image that starts below 2 ^ 31. The card is ready and takes no app command.
pub write_request-wrapped :
    (card : SdCard) (a : ℕ) (block : List ℕ)
    → card.is_ready ≡ true
    → card.next_is_app_command ≡ false
    → a < 4194304
    → a * 512 + 512 ≤ length card.card_image
    → length block ≡ 512
    → (feed (write_request (2147483648 + a) block) (select card)).1.card_image
      ≡ write_at (a * 512) block card.card_image
unfolding written
write_request-wrapped card a block ok basic small held h =
    ap (λ (c : SdCard). c.card_image)
      (feed-write_request card (2147483648 + a) block ok basic (negative_range (select card) a)
        (omega arith) h)
    ∙ ap (λ p. write_at p block card.card_image) (wrapped a small)
  where
    wrapped : (n : ℕ) → n < 4194304 → (2147483648 + n) * 512 % 4294967296 ≡ n * 512
    wrapped n h = omega arith
