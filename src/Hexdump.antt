-- ===== src/Hexdump.antt =====
-- emulator/hexdump.h and .cc: a dump in the style of `hexdump -C`. Characters are their codes.
-- `absl::Hex`, which gives the digits of a number padded to a width, is a parameter.
pub mod Lines
pub mod Reference
pub mod Squeeze
pub mod Repeats
use hd6301_thing.Storage.{Storage}
use hd6301_thing.Common.{
  ℕ, zero, suc, ◌+◌, ◌-◌, ◌%◌, Bool, true, false, not, ◌&&◌, ◌==◌, ltb, leb, if◌then◌else◌, List,
  [], ◌∷◌, ◌++◌, length, get_or, take, drop, replicate, Option, none, some,
}

abbrev pub bytes_per_line : ℕ
bytes_per_line = 16

-- `std::equal` of two ranges of the same length.
abbrev pub equal : List ℕ → List ℕ → Bool
equal [] [] = true
equal (x ∷ xs) (y ∷ ys) = x == y && equal xs ys
equal xs ys = false

-- A byte as a character, or a full stop.
abbrev pub printable : ℕ → ℕ
printable d = if leb 32 d && leb d 126 then d else b'.'

-- The second loop over the columns, which ends with the bytes.
unfoldable pub ascii_cells : List ℕ → ℕ → ℕ → ℕ → ℕ → List ℕ
ascii_cells bytes i bytes_to_offset zero j = []
ascii_cells bytes i bytes_to_offset (suc left) j =
    let rest = ascii_cells bytes i bytes_to_offset left (j + 1) in
    if ltb j bytes_to_offset
    then b' ' ∷ rest
    else (if leb (length bytes) (i + j - bytes_to_offset)
        then []
        else printable (get_or bytes (i + j - bytes_to_offset) 0) ∷ rest)

module _ (hex : ℕ → ℕ → List ℕ) where
  unfoldable pub hex_cell : List ℕ → ℕ → ℕ → ℕ → List ℕ
  hex_cell bytes i bytes_to_offset j =
      (if j == 8 then b' ' ∷ [] else [])
      ++ (if leb bytes_to_offset j && ltb (i + j - bytes_to_offset) (length bytes)
          then hex 2 (get_or bytes (i + j - bytes_to_offset) 0) ++ b' ' ∷ []
          else b' ' ∷ b' ' ∷ b' ' ∷ [])

  -- The first loop over the columns, from column j on.
  unfoldable pub hex_cells : List ℕ → ℕ → ℕ → ℕ → ℕ → List ℕ
  unfolding hex_cell
  hex_cells bytes i bytes_to_offset zero j = []
  hex_cells bytes i bytes_to_offset (suc left) j =
      hex_cell bytes i bytes_to_offset j ++ hex_cells bytes i bytes_to_offset left (j + 1)

  unfoldable pub line : List ℕ → ℕ → ℕ → ℕ → List ℕ
  unfolding hex_cells ascii_cells
  line bytes base_address i bytes_to_offset =
      let address = (i + base_address) % 4294967296 in
      hex 8 (address - address % bytes_per_line)
      ++ (b' '
          ∷ b' '
          ∷ (hex_cells bytes i bytes_to_offset bytes_per_line 0
              ++ (b' '
                  ∷ b'|'
                  ∷ (ascii_cells bytes i bytes_to_offset bytes_per_line 0 ++ b'|' ∷ 10 ∷ []))))

  -- The loop over the lines, on fuel; there is no result when the fuel runs out.
  unfoldable pub hexdump_loop : List ℕ → ℕ → ℕ → ℕ → ℕ → List ℕ → Bool → List ℕ → Option (List ℕ)
  unfolding line
  hexdump_loop bytes base_address zero i bytes_to_offset prev_line is_repeated output = none
  hexdump_loop bytes base_address (suc fuel) i bytes_to_offset prev_line is_repeated output =
      let current = take bytes_per_line (drop i bytes) in
      let skipped =
        hexdump_loop bytes base_address fuel (i + bytes_per_line) bytes_to_offset prev_line true
          (if is_repeated then output else output ++ b'*' ∷ 10 ∷ []) in
      let printed =
        hexdump_loop bytes base_address fuel (i + bytes_per_line - bytes_to_offset) 0
          (if ltb (i + bytes_per_line) (length bytes) then current else prev_line) false
          (output ++ line bytes base_address i bytes_to_offset) in
      if ltb i (length bytes)
      then (if leb bytes_per_line i
            && leb (i + bytes_per_line) (length bytes)
            && equal current prev_line
          then skipped
          else printed)
      else some output

  unfoldable pub hexdump : List ℕ → ℕ → Option (List ℕ)
  unfolding hexdump_loop
  hexdump bytes base_address =
      hexdump_loop bytes base_address (length bytes + 1) 0 (base_address % bytes_per_line)
        (replicate bytes_per_line 0) true []

  -- `Ram::hexdump`.
  unfoldable pub ram_hexdump : Storage → Option (List ℕ)
  unfolding hexdump
  ram_hexdump s = hexdump s.bytes s.base_address
