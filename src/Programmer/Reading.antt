-- ===== src/Programmer/Reading.antt =====
-- What the command `r` answers (pico_programmer/pico_programmer.cpp).
use hd6301_thing.Common.{
  ℕ, zero, suc, ◌+◌, ◌-◌, ◌*◌, ◌%◌, ◌<◌, ◌≡◌, refl, sym, subst, ap, ◌∙◌, arith, Bool, true, false,
  not, ◌&&◌, ◌==◌, u16, ◌<<<◌, List, [], ◌∷◌, ◌++◌, map, All, append_assoc, append-nil, Option,
  some,
}
use hd6301_thing.Programmer.Pins.{Pins}
use hd6301_thing.Programmer.Latches.{IsStandby, Hardware, read_at_address}
use hd6301_thing.Programmer.{
  Call, putchar, Sdk, mask_to_data, read_cycle_start, read_cycle_end, perform_all, set_latch_calls,
  set_latch, set_address_low, set_address_high, set_address, read_cycle, read_at, read_loop,
  read_data, read_command,
}

abbrev pub is_putchar : Call → Bool
is_putchar (putchar c) = true
is_putchar c = false

abbrev pub no_putchar : List Call → Bool
no_putchar [] = true
no_putchar (c ∷ cs) = not (is_putchar c) && no_putchar cs

both : (a b : Bool) → (not a && b) ≡ true → (a ≡ false) × (b ≡ true)
both a b h = ground arith

-- `n` addresses from `start` on, of 16 bits.
abbrev pub addresses : ℕ → ℕ → List ℕ
addresses zero start = []
addresses (suc n) start = start ∷ addresses n (u16 (start + 1))

abbrev pub IsAddress : ℕ → Type 0
IsAddress a = a < 65536

addresses-IsAddress : (n start : ℕ) → start < 65536 → All IsAddress (addresses n start)
addresses-IsAddress zero start h = tt
addresses-IsAddress (suc n) start h = (h, addresses-IsAddress n (u16 (start + 1)) (omega arith))

-- The addresses that are read for the first and the last one.
abbrev pub asked_for : ℕ → ℕ → List ℕ
asked_for start end = addresses ((end + 65537 - start) % 65536) start

module _ {P : Type 0} (sdk : Sdk P) where
  abbrev pub read_all : List ℕ → P → P
  read_all [] p = p
  read_all (a ∷ rest) p = read_all rest (read_at sdk a p)

  read_loop-ends :
      (fuel n i stop : ℕ) (p : P)
      → i < 65536
      → n < fuel
      → n ≡ (stop + 65536 - i) % 65536
      → stop < 65536
      → read_loop sdk fuel i stop p ≡ some (read_all (addresses n i) p)
  unfolding read_loop
  read_loop-ends zero n i stop p hi hn e hs = absurd (omega arith)
  read_loop-ends (suc fuel) zero i stop p hi hn e hs = rw (at_end) refl
    where
      at_end : (i == stop) ≡ true
      at_end = ground arith
  read_loop-ends (suc fuel) (suc n) i stop p hi hn e hs = rw (more) (
      read_loop-ends fuel n (u16 (i + 1)) stop (read_at sdk i p) (omega arith) (omega arith)
        (omega arith) hs)
    where
      more : (i == stop) ≡ false
      more = ground arith

  -- The fuel of `read_data` is enough.
  pub read_data-ends :
      (start end : ℕ) (p : P)
      → start < 65536
      → end < 65536
      → read_data sdk start end p ≡ some (read_all (asked_for start end) p)
  unfolding read_data
  read_data-ends start end p hs he =
      read_loop-ends 65536 ((end + 65537 - start) % 65536) start (u16 (end + 1)) p hs (omega arith)
        (omega arith) (omega arith)

-- What the command relies on besides the board: `printed` is the bytes that were put out.
pub record Terminal {P : Type 0} (sdk : Sdk P) (printed : P → List ℕ) : Type 0 where
  pub prints : (c : ℕ) (p : P) → printed (sdk.perform (putchar c) p) ≡ printed p ++ c ∷ []
  pub prints_nothing :
      (c : Call) (p : P) → is_putchar c ≡ false → printed (sdk.perform c p) ≡ printed p

module _ {P : Type 0} (sdk : Sdk P) (printed : P → List ℕ) (view : P → Pins) (low high : P → ℕ)
    (memory : ℕ → ℕ) (terminal : Terminal sdk printed)
    (hardware : Hardware sdk view low high memory) where
  silent :
      (cs : List Call) (p : P) → no_putchar cs ≡ true → printed (perform_all sdk cs p) ≡ printed p
  unfolding perform_all
  silent [] p h = refl
  silent (c ∷ cs) p h =
      let (e, quiet) = both (is_putchar c) (no_putchar cs) h in
      silent cs (sdk.perform c p) quiet ∙ terminal.prints_nothing c p e

  set_address-silent : (address : ℕ) (p : P) → printed (set_address sdk address p) ≡ printed p
  unfolding set_address set_address_low set_address_high set_latch
  set_address-silent address p =
      silent (set_latch_calls _ _) _ refl ∙ silent (set_latch_calls _ _) _ refl

  putchar-IsStandby :
      (c : ℕ) (p : P) → IsStandby (view p) → IsStandby (view (sdk.perform (putchar c) p))
  putchar-IsStandby c p standby = subst IsStandby (sym (hardware.performs (putchar c) p)) standby

  read_at_lem :
      (address : ℕ) (p : P)
      → address < 65536
      → IsStandby (view p)
      → let p' = read_at sdk address p in
        (printed p' ≡ printed p ++ memory address ∷ []) × IsStandby (view p')
  unfolding read_at read_cycle
  read_at_lem address p h standby =
      let p1 = set_address sdk address p in
      let p2 = perform_all sdk read_cycle_start p1 in
      let read = mask_to_data (sdk.gpio_get_all p2) in
      let (value, standby') =
        read_at_address sdk view low high memory hardware address p h standby in
      (
        terminal.prints read (perform_all sdk read_cycle_end p2)
            ∙ ap (λ l. l ++ read ∷ [])
                (silent read_cycle_end p2 refl
                  ∙ silent read_cycle_start p1 refl
                  ∙ set_address-silent address p)
            ∙ ap (λ (value : ℕ). printed p ++ value ∷ []) value,
        putchar-IsStandby read (perform_all sdk read_cycle_end p2) standby',
      )

  read_all-prints :
      (bytes_at : List ℕ) (p : P)
      → All IsAddress bytes_at
      → IsStandby (view p)
      → printed (read_all sdk bytes_at p) ≡ printed p ++ map memory bytes_at
  read_all-prints [] p h standby = sym (append-nil (printed p))
  read_all-prints (a ∷ rest) p h standby =
      let (read, standby') = read_at_lem a p h.0 standby in
      read_all-prints rest (read_at sdk a p) h.1 standby'
      ∙ ap (λ l. l ++ map memory rest) read
      ∙ append_assoc (printed p) (memory a ∷ []) (map memory rest)

  -- The command ends, having put out `bytes`.
  abbrev pub Answers : Option P → List ℕ → Type 0
  Answers r bytes = (p' : P) × (r ≡ some p') × (printed p' ≡ bytes)

  -- A read command with bytes for both addresses, in standby with the latches closed, ends, and puts
  -- out `r` and what the memory holds from the first address on to the second, round the end of the
  -- memory if that is below it; but it puts out `r` alone if the whole memory is asked for, with the
  -- first address one above the second (modulo 2 ^ 16). The latches take what is on the data pins
  -- while they are open, and the memory answers a read with the byte at the latched address.
  pub read_command_lem :
      (start_l start_h end_l end_h : ℕ) (p : P)
      → start_l < 256
      → start_h < 256
      → end_l < 256
      → end_h < 256
      → IsStandby (view p)
      → let start = start_h * 256 + start_l in
        let end = end_h * 256 + end_l in
        Answers
          (read_command sdk (some start_l) (some start_h) (some end_l) (some end_h) p)
          (printed p ++ b'r' ∷ map memory (asked_for start end))
  unfolding read_command
  read_command_lem start_l start_h end_l end_h p hsl hsh hel heh standby =
      let start = start_h * 256 + start_l in
      let end = end_h * 256 + end_l in
      let p1 = sdk.perform (putchar b'r') p in
      (
        read_all sdk (asked_for start end) p1,
        ap (λ (a : ℕ). read_data sdk a (u16 (end_l + (end_h <<< 8))) p1)
              (word start_l start_h hsl hsh)
            ∙ ap (λ (a : ℕ). read_data sdk start a p1) (word end_l end_h hel heh)
            ∙ read_data-ends sdk start end p1 (omega arith) (omega arith),
        read_all-prints (asked_for start end) p1 (addresses-IsAddress _ start (omega arith))
              (putchar-IsStandby b'r' p standby)
            ∙ ap (λ l. l ++ map memory (asked_for start end)) (terminal.prints b'r' p)
            ∙ append_assoc (printed p) (b'r' ∷ []) (map memory (asked_for start end)),
      )
    where
      word : (low high : ℕ) → low < 256 → high < 256 → u16 (low + (high <<< 8)) ≡ high * 256 + low
      word low high hl hh = omega arith
