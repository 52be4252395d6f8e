-- ===== src/Hexdump/Reference.antt =====
-- What a dump is, line by line (emulator/hexdump.cc), and lemmas on it.
use hd6301_thing.Common.{
  ℕ, zero, suc, ◌+◌, ◌-◌, ◌%◌, ◌≤◌, ◌<◌, ◌≡◌, ◌≢◌, ==_iff, le→leb, refl, sym, ap, ◌∙◌, arith, Bool,
  true, false, ◌&&◌, ◌==◌, leb, Bool-cases, inl, inr, ◌⊎◌, if◌then◌else◌, List, [], ◌∷◌, ◌++◌,
  length, take, drop, min,
}
use hd6301_thing.Hexdump.{equal}
use hd6301_thing.Hexdump.Lines.{row}

-- The data in pieces of 16 bytes, at most `n`; the last one may be shorter.
abbrev pub chunks : ℕ → List ℕ → List (List ℕ)
chunks zero bytes = []
chunks (suc n) [] = []
chunks (suc n) (x ∷ bytes) = take 16 (x ∷ bytes) ∷ chunks n (drop 16 (x ∷ bytes))

module _ (hex : ℕ → ℕ → List ℕ) where
  -- The lines from an address on, after a line of the bytes `previous`: a full line that repeats
  -- the one before is left out, and for each run of those there is a star.
  abbrev pub squeeze : ℕ → List ℕ → Bool → List (List ℕ) → List ℕ
  squeeze address previous is_repeated [] = []
  squeeze address previous is_repeated (c ∷ cs) =
      let repeated = squeeze (address + 16) c true cs in
      let fresh = squeeze (address + 16) c false cs in
      if length c == 16 && equal c previous
      then (if is_repeated then [] else b'*' ∷ 10 ∷ []) ++ repeated
      else row hex address 0 c ++ fresh

  -- The first line is short where the base address is not a multiple of 16.
  abbrev pub dump : List ℕ → ℕ → List ℕ
  dump [] base_address = []
  dump (x ∷ bytes) base_address =
      let offset = base_address % 16 in
      let first = take (16 - offset) (x ∷ bytes) in
      row hex (base_address - offset) offset first
      ++ squeeze (16 - offset + base_address) first false
          (chunks (length (x ∷ bytes)) (drop (16 - offset) (x ∷ bytes)))

pub equal→≡ : (xs ys : List ℕ) → equal xs ys ≡ true → xs ≡ ys
equal→≡ [] [] h = refl
equal→≡ (x ∷ xs) (y ∷ ys) h = ground (arith, equal→≡ xs ys)
equal→≡ [] (y ∷ ys) h = absurd (cc)
equal→≡ (x ∷ xs) [] h = absurd (cc)

drop-nil : (k : ℕ) → drop {A = ℕ} k [] ≡ []
drop-nil zero = refl
drop-nil (suc k) = refl

pub drop-drop : (i m k : ℕ) (bytes : List ℕ) → k ≡ i + m → drop m (drop i bytes) ≡ drop k bytes
drop-drop zero m k bytes e = ap (λ n. drop n bytes) (omega arith)
drop-drop (suc i) m k [] e = drop-nil m ∙ sym (drop-nil k)
drop-drop (suc i) m zero (x ∷ bytes) e = absurd (omega arith)
drop-drop (suc i) m (suc k) (x ∷ bytes) e = drop-drop i m k bytes (omega arith)

length-drop : (i : ℕ) (bytes : List ℕ) → length (drop i bytes) ≡ length bytes - i
length-drop zero bytes = omega arith
length-drop (suc i) [] = omega arith
length-drop (suc i) (x ∷ bytes) = omega (arith, length-drop i bytes)

pub length-take : (n : ℕ) (bytes : List ℕ) → length (take n bytes) ≡ min n (length bytes)
length-take zero bytes = omega arith
length-take (suc n) [] = omega arith
length-take (suc n) (x ∷ bytes) = omega (arith, length-take n bytes)

pub chunks-cons :
    (n i : ℕ) (bytes : List ℕ)
    → i < length bytes
    → chunks (suc n) (drop i bytes) ≡ take 16 (drop i bytes) ∷ chunks n (drop (i + 16) bytes)
chunks-cons n i bytes h =
    of_some (drop i bytes) (omega (arith, length-drop i bytes))
    ∙ ap (λ rest. take 16 (drop i bytes) ∷ chunks n rest) (drop-drop i 16 (i + 16) bytes refl)
  where
    of_some : (ys : List ℕ) → 0 < length ys → chunks (suc n) ys ≡ take 16 ys ∷ chunks n (drop 16 ys)
    of_some [] h = absurd (omega arith)
    of_some (y ∷ ys) h = refl

pub chunks-end : (n i : ℕ) (bytes : List ℕ) → length bytes ≤ i → chunks n (drop i bytes) ≡ []
chunks-end n i bytes h = of_none n (drop i bytes) (omega (arith, length-drop i bytes))
  where
    of_none : (n : ℕ) (ys : List ℕ) → length ys ≤ 0 → chunks n ys ≡ []
    of_none zero ys h = refl
    of_none (suc n) [] h = refl
    of_none (suc n) (y ∷ ys) h = absurd (omega arith)

is_full :
    (i : ℕ) (bytes : List ℕ)
    → i < length bytes
    → (length (take 16 (drop i bytes)) == 16) ≡ leb (i + 16) (length bytes)
is_full i bytes h = ground (arith, length-take 16 (drop i bytes), length-drop i bytes)

-- What the code keeps of the line before: its bytes, but nothing of a short first line.
abbrev pub Follows : List ℕ → ℕ → List ℕ → List ℕ → Type 0
Follows bytes i prev_line previous =
    i < length bytes → ((16 ≤ i) × (prev_line ≡ previous)) ⊎ ((i < 16) × (length previous ≢ 16))

not_equal : (xs ys : List ℕ) → length xs ≢ length ys → equal xs ys ≡ false
not_equal xs ys h = elim (Bool-cases (equal xs ys)) [
  | inl e ↦ absurd (h (ap length (equal→≡ xs ys e)))
  | inr e ↦ e
]

-- The test of the code is that of `squeeze`.
pub test_lem :
    (bytes : List ℕ) (i : ℕ) (prev_line previous : List ℕ)
    → i < length bytes
    → Follows bytes i prev_line previous
    → let c = take 16 (drop i bytes) in
      (leb 16 i && leb (i + 16) (length bytes) && equal c prev_line)
      ≡ (length c == 16 && equal c previous)
test_lem bytes i prev_line previous h follows = by_case (follows h)
  where
    not_yet : i < 16 → leb 16 i ≡ false
    not_yet first = ground arith

    differ :
        (length (take 16 (drop i bytes)) == 16) ≡ true
        → length previous ≢ 16
        → length (take 16 (drop i bytes)) ≢ length previous
    differ e ne same = ne (sym same ∙ (==_iff (length (take 16 (drop i bytes))) 16).0 e)

    never :
        length previous ≢ 16
        → (length (take 16 (drop i bytes)) == 16 && equal (take 16 (drop i bytes)) previous) ≡ false
    never ne = elim (Bool-cases (length (take 16 (drop i bytes)) == 16)) [
      | inl e ↦ rw (e) (not_equal (take 16 (drop i bytes)) previous (differ e ne))
      | inr e ↦ rw (e) refl
    ]

    by_case :
        ((16 ≤ i) × (prev_line ≡ previous)) ⊎ ((i < 16) × (length previous ≢ 16))
        → let c = take 16 (drop i bytes) in
          (leb 16 i && leb (i + 16) (length bytes) && equal c prev_line)
          ≡ (length c == 16 && equal c previous)
    by_case (inl (later, e)) = rw (e, is_full i bytes h) (rw (le→leb 16 i later) refl)
    by_case (inr (first, ne)) = rw (not_yet first) (sym (never ne))
