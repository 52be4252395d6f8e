-- ===== src/Hexdump/Squeeze.antt =====
-- The loop over the lines (emulator/hexdump.cc).
use hd6301_thing.Common.{
  ℕ, zero, suc, ◌+◌, ◌-◌, ◌%◌, ◌≤◌, ◌<◌, ◌≡◌, ◌≢◌, ==_iff, ltb→lt, lt→ltb, refl, sym, ap, ◌∙◌,
  arith, Bool, true, false, ◌&&◌, ◌==◌, ltb, leb, Bool-cases, inl, inr, if◌then◌else◌, List, [],
  ◌∷◌, ◌++◌, length, take, drop, replicate, append_assoc, append-nil, some,
}
use hd6301_thing.Hexdump.{equal, line, hexdump_loop, hexdump}
use hd6301_thing.Hexdump.Reference.{
  squeeze, dump, chunks, equal→≡, length-take, chunks-cons, chunks-end, Follows, test_lem,
}
use hd6301_thing.Hexdump.Lines.{row, line-row}

module _ (hex : ℕ → ℕ → List ℕ) (bytes : List ℕ) (base_address : ℕ) where
  -- The line at an index, and what follows it in the reference.
  abbrev at : ℕ → List ℕ
  at i = take 16 (drop i bytes)

  abbrev rest_from : ℕ → ℕ → List ℕ → Bool → List ℕ
  rest_from n i previous is_repeated =
      squeeze hex (i + base_address) previous is_repeated (chunks n (drop i bytes))

  loop-ended :
      (fuel n i : ℕ) (prev_line previous : List ℕ) (is_repeated : Bool) (output : List ℕ)
      → length bytes ≤ i
      → hexdump_loop hex bytes base_address (suc fuel) i 0 prev_line is_repeated output
        ≡ some (output ++ rest_from n i previous is_repeated)
  unfolding hexdump_loop
  loop-ended fuel n i prev_line previous is_repeated output h =
      rw (over, chunks-end n i bytes h) (ap some (sym (append-nil output)))
    where
      over : ltb i (length bytes) ≡ false
      over = ground arith

  -- The reference at a line, by the test.
  rest_from-suc :
      (n i : ℕ) (previous : List ℕ) (is_repeated : Bool)
      → i < length bytes
      → rest_from (suc n) i previous is_repeated ≡ (
          if length (at i) == 16 && equal (at i) previous
          then (if is_repeated then [] else b'*' ∷ 10 ∷ []) ++ rest_from n (i + 16) (at i) true
          else row hex (i + base_address) 0 (at i) ++ rest_from n (i + 16) (at i) false)
  rest_from-suc n i previous is_repeated h =
      ap (squeeze hex (i + base_address) previous is_repeated) (chunks-cons n i bytes h)
      ∙ ap
          (λ (address : ℕ).
            if length (at i) == 16 && equal (at i) previous
            then (if is_repeated then [] else b'*' ∷ 10 ∷ [])
              ++ squeeze hex address (at i) true (chunks n (drop (i + 16) bytes))
            else row hex (i + base_address) 0 (at i)
              ++ squeeze hex address (at i) false (chunks n (drop (i + 16) bytes)))
          next
    where
      next : i + base_address + 16 ≡ i + 16 + base_address
      next = omega arith

  -- The code at a line, by its test.
  loop-suc :
      (fuel i : ℕ) (prev_line : List ℕ) (is_repeated : Bool) (output : List ℕ)
      → i < length bytes
      → hexdump_loop hex bytes base_address (suc fuel) i 0 prev_line is_repeated output ≡ (
          if leb 16 i && leb (i + 16) (length bytes) && equal (at i) prev_line
          then hexdump_loop hex bytes base_address fuel
              (i + 16)
              0
              prev_line
              true
              (if is_repeated then output else output ++ b'*' ∷ 10 ∷ [])
          else hexdump_loop hex bytes base_address fuel
              (i + 16)
              0
              (if ltb (i + 16) (length bytes) then at i else prev_line)
              false
              (output ++ line hex bytes base_address i 0))
  unfolding hexdump_loop
  loop-suc fuel i prev_line is_repeated output h = rw (within) (
      ap
        (λ (k : ℕ).
          if leb 16 i && leb (i + 16) (length bytes) && equal (at i) prev_line
          then hexdump_loop hex bytes base_address fuel (i + 16) 0 prev_line true
              (if is_repeated then output else output ++ b'*' ∷ 10 ∷ [])
          else hexdump_loop hex bytes base_address fuel k 0
              (if ltb (i + 16) (length bytes) then at i else prev_line) false
              (output ++ line hex bytes base_address i 0))
        same)
    where
      same : i + 16 - 0 ≡ i + 16
      same = omega arith

      within : ltb i (length bytes) ≡ true
      within = ground arith

  star_lem :
      (is_repeated : Bool) (output rest : List ℕ)
      → (if is_repeated then output else output ++ b'*' ∷ 10 ∷ []) ++ rest
        ≡ output ++ ((if is_repeated then [] else b'*' ∷ 10 ∷ []) ++ rest)
  star_lem true output rest = refl
  star_lem false output rest = append_assoc output (b'*' ∷ 10 ∷ []) rest

  Follows-repeated :
      (i : ℕ) (prev_line previous : List ℕ)
      → (leb 16 i && leb (i + 16) (length bytes) && equal (at i) prev_line) ≡ true
      → Follows bytes (i + 16) prev_line (at i)
  Follows-repeated i prev_line previous e more =
      inl (omega arith, sym (equal→≡ (at i) prev_line (last_of _ _ e)))
    where
      last_of : (a b : Bool) → (a && b) ≡ true → b ≡ true
      last_of a b h = ground arith

  Follows-printed :
      (i : ℕ) (prev_line : List ℕ)
      → Follows bytes (i + 16) (if ltb (i + 16) (length bytes) then at i else prev_line) (at i)
  Follows-printed i prev_line more =
      rw (lt→ltb (i + 16) (length bytes) more) (inl (omega arith, refl))

  abbrev starred : Bool → List ℕ → List ℕ
  starred is_repeated output = if is_repeated then output else output ++ b'*' ∷ 10 ∷ []

  abbrev kept : ℕ → List ℕ → List ℕ
  kept i prev_line = if ltb (i + 16) (length bytes) then at i else prev_line

  line-row_aligned :
      (i : ℕ)
      → (i + base_address) % 16 ≡ 0
      → line hex bytes base_address i 0 ≡ row hex (i + base_address) 0 (at i)
  line-row_aligned i aligned =
      line-row hex bytes base_address i 0 16 refl aligned
      ∙ ap (λ (address : ℕ). row hex address 0 (at i)) (omega arith)

  -- Both go on alike, if they do from the next line on.
  join :
      (fuel n i : ℕ) (prev_line previous : List ℕ) (is_repeated : Bool) (output : List ℕ)
      → i < length bytes
      → (i + base_address) % 16 ≡ 0
      → Follows bytes i prev_line previous
      → ((leb 16 i && leb (i + 16) (length bytes) && equal (at i) prev_line) ≡ true
          → hexdump_loop hex bytes base_address fuel
              (i + 16)
              0
              prev_line
              true
              (starred is_repeated output)
            ≡ some (starred is_repeated output ++ rest_from n (i + 16) (at i) true))
      → hexdump_loop hex bytes base_address fuel
          (i + 16)
          0
          (kept i prev_line)
          false
          (output ++ line hex bytes base_address i 0)
        ≡ some ((output ++ line hex bytes base_address i 0) ++ rest_from n (i + 16) (at i) false)
      → hexdump_loop hex bytes base_address (suc fuel) i 0 prev_line is_repeated output
        ≡ some (output ++ rest_from (suc n) i previous is_repeated)
  join fuel n i prev_line previous is_repeated output h aligned follows repeats prints =
      let again =
        (if is_repeated then [] else b'*' ∷ 10 ∷ []) ++ rest_from n (i + 16) (at i) true in
      let new = row hex (i + base_address) 0 (at i) ++ rest_from n (i + 16) (at i) false in
      loop-suc fuel i prev_line is_repeated output h
      ∙ elim (Bool-cases (leb 16 i && leb (i + 16) (length bytes) && equal (at i) prev_line)) [
        | inl e ↦
            rw (e)
              (repeats e ∙ ap some (star_lem is_repeated output (rest_from n (i + 16) (at i) true)))
            ∙ ap (λ rest. some (output ++ rest))
                (if_true (length (at i) == 16 && equal (at i) previous) again new (sym same ∙ e))
        | inr e ↦
            rw (e) (
              prints
              ∙ ap some (
                  append_assoc output (line hex bytes base_address i 0)
                    (rest_from n (i + 16) (at i) false)
                  ∙ ap (λ l. output ++ (l ++ rest_from n (i + 16) (at i) false))
                      (line-row_aligned i aligned)))
            ∙ ap (λ rest. some (output ++ rest))
                (if_false (length (at i) == 16 && equal (at i) previous) again new (sym same ∙ e))
      ]
      ∙ ap (λ rest. some (output ++ rest)) (sym (rest_from-suc n i previous is_repeated h))
    where
      same :
          (leb 16 i && leb (i + 16) (length bytes) && equal (at i) prev_line)
          ≡ (length (at i) == 16 && equal (at i) previous)
      same = test_lem bytes i prev_line previous h follows

      if_true : (b : Bool) (xs ys : List ℕ) → b ≡ true → xs ≡ (if b then xs else ys)
      if_true b xs ys e = rw (e) refl

      if_false : (b : Bool) (xs ys : List ℕ) → b ≡ false → ys ≡ (if b then xs else ys)
      if_false b xs ys e = rw (e) refl

  loop-squeeze :
      (fuel n i : ℕ) (prev_line previous : List ℕ) (is_repeated : Bool) (output : List ℕ)
      → length bytes ≤ i + fuel
      → length bytes ≤ i + n
      → (i + base_address) % 16 ≡ 0
      → Follows bytes i prev_line previous
      → hexdump_loop hex bytes base_address (suc fuel) i 0 prev_line is_repeated output
        ≡ some (output ++ rest_from n i previous is_repeated)
  loop-squeeze zero n i prev_line previous is_repeated output hf hn aligned follows =
      loop-ended 0 n i prev_line previous is_repeated output (omega arith)
  loop-squeeze (suc fuel) zero i prev_line previous is_repeated output hf hn aligned follows =
      loop-ended (suc fuel) zero i prev_line previous is_repeated output (omega arith)
  loop-squeeze (suc fuel) (suc n) i prev_line previous is_repeated output hf hn aligned follows =
      elim (Bool-cases (ltb i (length bytes))) [
        | inr over ↦
            loop-ended (suc fuel) (suc n) i prev_line previous is_repeated output (ground arith)
        | inl within ↦
            join (suc fuel) n i prev_line previous is_repeated output
              (ltb→lt i (length bytes) within) aligned follows
              (λ e.
                loop-squeeze fuel n (i + 16) prev_line (at i) true (starred is_repeated output)
                  (omega arith) (omega arith) (omega arith)
                  (Follows-repeated i prev_line previous e))
              (loop-squeeze fuel n (i + 16) (kept i prev_line) (at i) false
                (output ++ line hex bytes base_address i 0) (omega arith) (omega arith)
                (omega arith) (Follows-printed i prev_line))
      ]

module _ (hex : ℕ → ℕ → List ℕ) (x : ℕ) (xs : List ℕ) (base_address : ℕ) where
  abbrev bytes : List ℕ
  bytes = x ∷ xs

  abbrev offset : ℕ
  offset = base_address % 16

  abbrev after_first : List ℕ
  after_first = if ltb 16 (length bytes) then take 16 bytes else replicate 16 0

  first_round :
      hexdump hex bytes base_address
      ≡ hexdump_loop hex bytes base_address
          (suc (length xs))
          (16 - offset)
          0
          after_first
          false
          (line hex bytes base_address 0 offset)
  unfolding hexdump hexdump_loop
  first_round =
      ap (λ (fuel : ℕ). hexdump_loop hex bytes base_address fuel 0 offset (replicate 16 0) true [])
        fuel_enough
      ∙ rw (within) refl
    where
      fuel_enough : length bytes + 1 ≡ suc (suc (length xs))
      fuel_enough = omega arith

      within : ltb 0 (suc (length xs)) ≡ true
      within = ground arith

  Follows-first : Follows bytes (16 - offset) after_first (take (16 - offset) bytes)
  Follows-first h = elim (Bool-cases (offset == 0)) [
    | inl e ↦ inl (
      aligned e,
      rw (lt→ltb 16 (length bytes) (past e)) (ap (λ n. take n bytes) (sym (whole_line e))),
    )
    | inr e ↦ inr (indented e, λ full. short e (full ∙ refl))
  ]
    where
      whole_line : (offset == 0) ≡ true → 16 - offset ≡ 16
      whole_line e = omega (arith, (==_iff offset 0).0 e)

      aligned : (offset == 0) ≡ true → 16 ≤ 16 - offset
      aligned e = omega (arith, whole_line e)

      past : (offset == 0) ≡ true → 16 < length bytes
      past e = omega (arith, whole_line e)

      indented : (offset == 0) ≡ false → 16 - offset < 16
      indented e = ground arith

      short : (offset == 0) ≡ false → length (take (16 - offset) bytes) ≢ 16
      short e full = absurd (omega (arith, length-take (16 - offset) bytes, indented e))

  hexdump_cons : hexdump hex bytes base_address ≡ some (dump hex bytes base_address)
  hexdump_cons =
      first_round
      ∙ loop-squeeze hex bytes base_address (length xs) (length bytes) (16 - offset) after_first
          (take (16 - offset) bytes) false (line hex bytes base_address 0 offset) (omega arith)
          (omega arith) (omega arith) Follows-first
      ∙ ap
          (λ l. some (
            l
            ++ squeeze hex (16 - offset + base_address) (take (16 - offset) bytes) false
                (chunks (length bytes) (drop (16 - offset) bytes))))
          first_row
    where
      first_row :
          line hex bytes base_address 0 offset
          ≡ row hex (base_address - offset) offset (take (16 - offset) bytes)
      first_row =
          line-row hex bytes base_address 0 offset (16 - offset) (omega arith) (omega arith)
          ∙ ap (λ (address : ℕ). row hex address offset (take (16 - offset) bytes)) (omega arith)

-- The dump of any data, from any address, is: a line for the bytes up to the next multiple of 16,
-- indented by what is missing of it before the address; then a line for each 16 bytes and for
-- those that are left, where each full line that equals the one before is left out, and a star stands for a run of those.
-- The fuel is enough.
pub hexdump-dump :
    (hex : ℕ → ℕ → List ℕ) (data_bytes : List ℕ) (base_address : ℕ)
    → hexdump hex data_bytes base_address ≡ some (dump hex data_bytes base_address)
unfolding hexdump hexdump_loop
hexdump-dump hex [] base_address = refl
hexdump-dump hex (x ∷ xs) base_address = hexdump_cons hex x xs base_address
