-- ===== src/Hexdump/Lines.antt =====
-- The dump is the dump of the lines of the data (emulator/hexdump.cc).
use hd6301_thing.Common.{
  ℕ, zero, suc, ◌+◌, ◌-◌, ◌%◌, ◌≤◌, ◌≡◌, refl, sym, ap, ◌∙◌, arith, true, false, ◌==◌, ltb, leb,
  if◌then◌else◌, List, [], ◌∷◌, ◌++◌, map, length, get_or, take, drop, replicate, Option, none,
  some,
}
use hd6301_thing.Hexdump.{bytes_per_line, printable, hex_cell, hex_cells, ascii_cells, line}

abbrev pub head : List (Option ℕ) → Option ℕ
head [] = none
head (c ∷ cs) = c

abbrev pub tail : List (Option ℕ) → List (Option ℕ)
tail [] = []
tail (c ∷ cs) = cs

-- The bytes of a line from an index on: the next one, and those after it.
tail_lem :
    (bytes : List ℕ) (k left : ℕ)
    → tail (map some (take (suc left) (drop k bytes))) ≡ map some (take left (drop (suc k) bytes))
tail_lem [] zero zero = refl
tail_lem [] zero (suc left) = refl
tail_lem [] (suc k) zero = refl
tail_lem [] (suc k) (suc left) = refl
tail_lem (x ∷ bytes) zero left = refl
tail_lem (x ∷ bytes) (suc k) left = tail_lem bytes k left

together : {a b c d : List ℕ} → a ≡ b → c ≡ d → a ++ c ≡ b ++ d
together p q = λ i. p i ++ q i

ascii_step :
    (bytes : List ℕ) (k left : ℕ) (rest : List ℕ)
    → rest ≡ map printable (take left (drop (suc k) bytes))
    → (if leb (length bytes) k then [] else printable (get_or bytes k 0) ∷ rest)
      ≡ map printable (take (suc left) (drop k bytes))
ascii_step [] zero left rest h = refl
ascii_step [] (suc k) left rest h = ground arith
ascii_step (x ∷ bytes) zero left rest h = ground arith
ascii_step (x ∷ bytes) (suc k) left rest h = shift ∙ ascii_step bytes k left rest h
  where
    shift :
        (if leb (suc (length bytes)) (suc k) then [] else printable (get_or bytes k 0) ∷ rest)
        ≡ (if leb (length bytes) k then [] else printable (get_or bytes k 0) ∷ rest)
    shift = ground arith

-- The printable characters of a line.
ascii_cells-map :
    (bytes : List ℕ) (i offset left j : ℕ)
    → offset ≤ j
    → ascii_cells bytes i offset left j ≡ map printable (take left (drop (i + j - offset) bytes))
unfolding ascii_cells
ascii_cells-map bytes i offset zero j h = refl
ascii_cells-map bytes i offset (suc left) j h = rw (after_offset) (
    ascii_step bytes (i + j - offset) left (ascii_cells bytes i offset left (j + 1)) (
      ascii_cells-map bytes i offset left (j + 1) (omega arith)
      ∙ ap (λ k. map printable (take left (drop k bytes))) next))
  where
    after_offset : ltb j offset ≡ false
    after_offset = ground arith

    next : i + (j + 1) - offset ≡ suc (i + j - offset)
    next = omega arith

-- The characters before the first byte are spaces.
ascii_cells-gap :
    (gap : ℕ) (bytes : List ℕ) (i offset left total j : ℕ)
    → offset ≡ j + gap
    → total ≡ gap + left
    → ascii_cells bytes i offset total j
      ≡ replicate gap b' ' ++ map printable (take left (drop i bytes))
unfolding ascii_cells
ascii_cells-gap zero bytes i offset left total j h f =
    ascii_cells-map bytes i offset total j (omega arith)
    ∙ ap (λ k. map printable (take total (drop k bytes))) here
    ∙ ap (λ n. map printable (take n (drop i bytes))) all
  where
    here : i + j - offset ≡ i
    here = omega arith

    all : total ≡ left
    all = omega arith
ascii_cells-gap (suc gap) bytes i offset left zero j h f = absurd (omega arith)
ascii_cells-gap (suc gap) bytes i offset left (suc total) j h f = rw (before) (
    ap (λ rest. b' ' ∷ rest)
      (ascii_cells-gap gap bytes i offset left total (j + 1) (omega arith) (omega arith)))
  where
    before : ltb j offset ≡ true
    before = ground arith

module _ (hex : ℕ → ℕ → List ℕ) where
  -- A column is blank, or two digits and a space.
  abbrev pub column : Option ℕ → List ℕ
  column none = b' ' ∷ b' ' ∷ b' ' ∷ []
  column (some byte) = hex 2 byte ++ b' ' ∷ []

  -- The last columns of a line, as many as are left; one more space stands in their middle.
  abbrev pub columns : ℕ → List (Option ℕ) → List ℕ
  columns zero cs = []
  columns (suc left) cs =
      (if left == 7 then b' ' ∷ [] else []) ++ column (head cs) ++ columns left (tail cs)

  -- A line of some bytes, the first of which is at `offset`.
  abbrev pub row : ℕ → ℕ → List ℕ → List ℕ
  row address offset bytes =
      hex 8 (address % 4294967296)
      ++ (b' '
          ∷ b' '
          ∷ (columns bytes_per_line (replicate offset none ++ map some bytes)
              ++ (b' '
                  ∷ b'|'
                  ∷ ((replicate offset b' ' ++ map printable bytes) ++ b'|' ∷ 10 ∷ []))))

  column-head :
      (bytes : List ℕ) (k left : ℕ)
      → (if ltb k (length bytes)
          then hex 2 (get_or bytes k 0) ++ b' ' ∷ []
          else b' ' ∷ b' ' ∷ b' ' ∷ [])
        ≡ column (head (map some (take (suc left) (drop k bytes))))
  column-head [] zero left = refl
  column-head [] (suc k) left = ground arith
  column-head (x ∷ bytes) zero left = ground arith
  column-head (x ∷ bytes) (suc k) left = shift ∙ column-head bytes k left
    where
      shift :
          (if ltb (suc k) (suc (length bytes))
            then hex 2 (get_or bytes k 0) ++ b' ' ∷ []
            else b' ' ∷ b' ' ∷ b' ' ∷ [])
          ≡ (if ltb k (length bytes)
              then hex 2 (get_or bytes k 0) ++ b' ' ∷ []
              else b' ' ∷ b' ' ∷ b' ' ∷ [])
      shift = ground arith

  hex_cell-column :
      (bytes : List ℕ) (i offset left j : ℕ)
      → offset ≤ j
      → j + suc left ≡ 16
      → hex_cell hex bytes i offset j
        ≡ (if left == 7 then b' ' ∷ [] else [])
          ++ column (head (map some (take (suc left) (drop (i + j - offset) bytes))))
  unfolding hex_cell
  hex_cell-column bytes i offset left j h e =
      rw (from_offset, middle)
        (ap (λ c. (if left == 7 then b' ' ∷ [] else []) ++ c)
          (column-head bytes (i + j - offset) left))
    where
      from_offset : leb offset j ≡ true
      from_offset = ground arith

      middle : (j == 8) ≡ (left == 7)
      middle = ground arith

  hex_cells-columns :
      (bytes : List ℕ) (i offset left j : ℕ)
      → offset ≤ j
      → j + left ≡ 16
      → hex_cells hex bytes i offset left j
        ≡ columns left (map some (take left (drop (i + j - offset) bytes)))
  unfolding hex_cells
  hex_cells-columns bytes i offset zero j h e = refl
  hex_cells-columns bytes i offset (suc left) j h e =
      together (hex_cell-column bytes i offset left j h e) (
        hex_cells-columns bytes i offset left (j + 1) (omega arith) (omega arith)
        ∙ ap (λ k. columns left (map some (take left (drop k bytes)))) next
        ∙ ap (columns left) (sym (tail_lem bytes (i + j - offset) left)))
    where
      next : i + (j + 1) - offset ≡ suc (i + j - offset)
      next = omega arith

  -- The columns before the first byte, and the others.
  hex_cells-gap :
      (gap : ℕ) (bytes : List ℕ) (i offset left total j : ℕ)
      → offset ≡ j + gap
      → j + total ≡ 16
      → total ≡ gap + left
      → hex_cells hex bytes i offset total j
        ≡ columns total (replicate gap none ++ map some (take left (drop i bytes)))
  unfolding hex_cells
  hex_cells-gap zero bytes i offset left total j h e f =
      hex_cells-columns bytes i offset total j (omega arith) e
      ∙ ap (λ k. columns total (map some (take total (drop k bytes)))) here
      ∙ ap (λ n. columns total (map some (take n (drop i bytes)))) all
    where
      here : i + j - offset ≡ i
      here = omega arith

      all : total ≡ left
      all = omega arith
  hex_cells-gap (suc gap) bytes i offset left zero j h e f = absurd (omega arith)
  hex_cells-gap (suc gap) bytes i offset left (suc total) j h e f = together blank (
      hex_cells-gap gap bytes i offset left total (j + 1) (omega arith) (omega arith) (omega arith))
    where
      before : leb offset j ≡ false
      before = ground arith

      middle : (j == 8) ≡ (total == 7)
      middle = ground arith

      blank :
          hex_cell hex bytes i offset j
          ≡ (if total == 7 then b' ' ∷ [] else []) ++ b' ' ∷ b' ' ∷ b' ' ∷ []
      blank = rw (before, middle) refl

  -- A line of the code is the row of its bytes.
  pub line-row :
      (bytes : List ℕ) (base_address i offset left : ℕ)
      → offset + left ≡ 16
      → (i + base_address) % 16 ≡ offset
      → line hex bytes base_address i offset
        ≡ row (i + base_address - offset) offset (take left (drop i bytes))
  unfolding line
  line-row bytes base_address i offset left e f =
      let address = (i + base_address) % 4294967296 in
      together (ap (hex 8) aligned) (
        ap (λ cells. b' ' ∷ b' ' ∷ cells)
          (together (hex_cells-gap offset bytes i offset left 16 0 (omega arith) refl (sym e)) (
            ap (λ cells. b' ' ∷ b'|' ∷ (cells ++ b'|' ∷ 10 ∷ []))
              (ascii_cells-gap offset bytes i offset left 16 0 (omega arith) (sym e)))))
    where
      aligned :
          (i + base_address) % 4294967296 - (i + base_address) % 4294967296 % 16
          ≡ (i + base_address - offset) % 4294967296
      aligned = omega arith
