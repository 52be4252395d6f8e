-- ===== src/Examples/Bus.antt =====
-- The theorems on the SPI bus and the SD card at concrete states.
use hd6301_thing.Common.{
  ℕ, ◌+◌, ◌*◌, ◌≡◌, refl, arith, true, false, List, [], ◌∷◌, ◌++◌, replicate, take, drop, ◌==◌,
  if◌then◌else◌, some,
}
use hd6301_thing.Part.{whole}
use hd6301_thing.Device.Port.{IoPort}
use hd6301_thing.Device.Spi.{Spi, spi_at}
use hd6301_thing.Device.Spi.Bits.{to_bits}
use hd6301_thing.Device.Spi.Exchange.{cycles-to_bits, cycles, IsAnswered, present}
use hd6301_thing.Device.SdCard.{SdCard, card_of, feed, write_at}
use hd6301_thing.Device.SdCard.Transfer.{request}
use hd6301_thing.Device.SdCard.Sound.{Signal, byte, signals, signals-IsSound, IsSound}
use hd6301_thing.Device.SdCard.Sound
use hd6301_thing.Device.SdCard.RoundTrip.{
  select, write_request, write_request_lem, write_request-wrapped,
}

-- Two blocks of zeros, in a card that was initialized.
abbrev card : SdCard
card = record (card_of (replicate 1024 0)) { is_ready = true }

abbrev sevens : List ℕ
sevens = replicate 512 7

write_request_lem_example :
    (feed
      (request 17 1 ++ replicate 516 0xff)
      (select (feed (write_request 1 sevens) (select card)).1)).0
    ≡ replicate 6 0xff
      ++ 0 ∷ 0xfe ∷ (if 1 == 1 then sevens else take 512 (drop (1 * 512) card.card_image))
      ++ 0 ∷ 0 ∷ []
unfolding card_of
write_request_lem_example =
    write_request_lem card 1 1 sevens (replicate 516 0xff) (refl, refl, omega arith, omega arith)
      (refl, refl, omega arith, omega arith) (omega arith) refl refl

write_request-wrapped_example :
    (feed (write_request (2147483648 + 0) sevens) (select card)).1.card_image
    ≡ write_at (0 * 512) sevens card.card_image
unfolding card_of
write_request-wrapped_example =
    write_request-wrapped card 0 sevens refl refl (omega arith) (omega arith) refl

signals-IsSound_example :
    IsSound (
      signals (Sound.select true ∷ byte 0x40 ∷ Sound.select false ∷ []) (card_of (replicate 512 0)))
signals-IsSound_example =
    signals-IsSound (Sound.select true ∷ byte 0x40 ∷ Sound.select false ∷ []) (replicate 512 0)

-- Nothing is wired to the MISO port; the world is the port.
abbrev World : Type 0
World = IoPort (Unit {0}) × (Unit {0})

abbrev port : World
port = (
  record {
    output_change_callbacks = [];
    input_change_callbacks = [];
    data_direction = 0;
    output_register = 0;
    input_register = 0;
  },
  tt,
)

-- The other side answers each byte with the byte plus one, and has 0xa5 to send.
abbrev bus : Spi World
bus = record (spi_at 7 0 1 2) {
  byte_received_callback = some (λ value w. (value + 1, w));
  sub_data_out = 0xa5;
  previous_clock = 1;
}

cycles-to_bits_example :
    IsAnswered whole bus 0x12
      (present whole bus.miso_mask (to_bits 8 0xa5) port)
      (cycles whole (to_bits 8 0x12) (bus, port))
unfolding spi_at
cycles-to_bits_example =
    cycles-to_bits whole 0x12 bus port (omega arith) (omega arith)
      (refl, refl, ground arith, ground arith)
