-- ===== src/Hexdump/Repeats.antt =====
-- A dump does not tell how often its last line is repeated (emulator/hexdump.cc).
use hd6301_thing.Common.{
  ℕ, zero, suc, ◌+◌, ◌-◌, ◌%◌, ◌≤◌, ◌≡◌, refl, ap, ◌∙◌, arith, Bool, true, false, ◌&&◌, ◌==◌,
  ==_refl, if◌then◌else◌, List, [], ◌∷◌, ◌++◌, length, take, drop, replicate, flatten, some,
  length-append,
}
use hd6301_thing.Hexdump.{equal, hexdump}
use hd6301_thing.Hexdump.Lines.{row}
use hd6301_thing.Hexdump.Reference.{squeeze, chunks}
use hd6301_thing.Hexdump.Squeeze.{hexdump-dump}

equal_refl : (xs : List ℕ) → equal xs xs ≡ true
equal_refl [] = refl
equal_refl (x ∷ xs) = rw (==_refl x) (equal_refl xs)

take-append : (n : ℕ) (c rest : List ℕ) → length c ≡ n → take n (c ++ rest) ≡ c
take-append zero [] rest e = refl
take-append zero (x ∷ c) rest e = absurd (omega arith)
take-append (suc n) [] rest e = absurd (omega arith)
take-append (suc n) (x ∷ c) rest e = ap (λ l. x ∷ l) (take-append n c rest (omega arith))

drop-append : (n : ℕ) (c rest : List ℕ) → length c ≡ n → drop n (c ++ rest) ≡ rest
drop-append zero [] rest e = refl
drop-append zero (x ∷ c) rest e = absurd (omega arith)
drop-append (suc n) [] rest e = absurd (omega arith)
drop-append (suc n) (x ∷ c) rest e = drop-append n c rest (omega arith)

chosen : (b : Bool) (xs ys : List ℕ) → b ≡ true → (if b then xs else ys) ≡ xs
chosen b xs ys e = rw (e) refl

module _ (hex : ℕ → ℕ → List ℕ) (x : ℕ) (xs : List ℕ) (full : length (x ∷ xs) ≡ 16) where
  abbrev c : List ℕ
  c = x ∷ xs

  chunks-replicate : (n m : ℕ) → m ≤ n → chunks n (flatten (replicate m c)) ≡ replicate m c
  chunks-replicate zero zero h = refl
  chunks-replicate zero (suc m) h = absurd (omega arith)
  chunks-replicate (suc n) zero h = refl
  chunks-replicate (suc n) (suc m) h = λ i.
      take-append 16 c (flatten (replicate m c)) full i
      ∷ (ap (chunks n) (drop-append 16 c (flatten (replicate m c)) full)
            ∙ chunks-replicate n m (omega arith))
          i

  same_line : (length c == 16 && equal c c) ≡ true
  same_line = rw (full, equal_refl c) refl

  squeeze-repeated : (m address : ℕ) → squeeze hex address c true (replicate m c) ≡ []
  squeeze-repeated zero address = refl
  squeeze-repeated (suc m) address =
      chosen (length c == 16 && equal c c) (squeeze hex (address + 16) c true (replicate m c))
        (row hex address 0 c ++ squeeze hex (address + 16) c false (replicate m c)) same_line
      ∙ squeeze-repeated m (address + 16)

  long_enough : (m : ℕ) → m ≤ length (flatten (replicate m c))
  long_enough zero = omega arith
  long_enough (suc m) =
      omega (arith, length-append c (flatten (replicate m c)), long_enough m, full)

  -- The lines after the first one.
  after_first : (n address : ℕ) → squeeze hex address c false (replicate (suc n) c) ≡ b'*' ∷ 10 ∷ []
  after_first n address =
      chosen (length c == 16 && equal c c)
        (b'*' ∷ 10 ∷ squeeze hex (address + 16) c true (replicate n c))
        (row hex address 0 c ++ squeeze hex (address + 16) c false (replicate n c)) same_line
      ∙ ap (λ rest. b'*' ∷ 10 ∷ rest) (squeeze-repeated n (address + 16))

  -- Two or more equal lines are dumped as the line and a star.
  pub hexdump-replicate :
      (n base_address : ℕ)
      → base_address % 16 ≡ 0
      → hexdump hex (flatten (replicate (suc (suc n)) c)) base_address
        ≡ some (row hex base_address 0 c ++ b'*' ∷ 10 ∷ [])
  hexdump-replicate n base_address aligned =
      let rest = flatten (replicate (suc n) c) in
      let size = length (c ++ rest) in
      let of_lines : ℕ → List ℕ → List ℕ → List ℕ = λ address first others.
        row hex address 0 first
        ++ squeeze hex (16 + base_address) first false (chunks size others) in
      hexdump-dump hex (c ++ rest) base_address
      ∙ ap
          (λ (o : ℕ). some (
            row hex (base_address - o) o (take (16 - o) (c ++ rest))
            ++ squeeze hex (16 - o + base_address) (take (16 - o) (c ++ rest)) false
                (chunks size (drop (16 - o) (c ++ rest)))))
          aligned
      ∙ ap (λ (address : ℕ). some (of_lines address (take 16 (c ++ rest)) (drop 16 (c ++ rest))))
          (omega arith)
      ∙ ap (λ first. some (of_lines base_address first (drop 16 (c ++ rest))))
          (take-append 16 c rest full)
      ∙ ap (λ others. some (of_lines base_address c others)) (drop-append 16 c rest full)
      ∙ ap
          (λ lines.
            some (row hex base_address 0 c ++ squeeze hex (16 + base_address) c false lines))
          (chunks-replicate size (suc n) (enough n))
      ∙ ap (λ lines. some (row hex base_address 0 c ++ lines)) (after_first n (16 + base_address))
    where
      enough : (n : ℕ) → suc n ≤ length (c ++ flatten (replicate (suc n) c))
      enough n = omega (arith, length-append c (flatten (replicate (suc n) c)), long_enough (suc n))
