-- ===== src/Device/Spi/Bits.antt =====
-- The bits of a byte, in the order of the SPI bus (emulator/spi.cc).
use hd6301_thing.Common.{
  ℕ, zero, suc, ◌+◌, ◌*◌, ◌%◌, ◌<◌, ◌≡◌, refl, sym, ◌∙◌, ap, arith, true, false, Bool, nz, bit_and,
  bit_or, ◌==◌, if◌then◌else◌, List, [], ◌∷◌, u8, ◌<<<◌, bit_or_digit, holds_below, holds_below→at,
  ==_iff, ◌^◌, ◌/◌,
}

-- The first bit is the highest.
abbrev pub from_bits : ℕ → List Bool → ℕ
from_bits n [] = n
from_bits n (b ∷ bs) = from_bits (2 * n + (if b then 1 else 0)) bs

-- The binary digits of a number, the highest first.
abbrev pub to_bits : ℕ → ℕ → List Bool
to_bits zero n = []
to_bits (suc k) n = (n / 2 ^ k % 2 == 1) ∷ to_bits k n

-- The bits that a register of 8 bits shifts out.
abbrev pub shifted_out : ℕ → ℕ → List Bool
shifted_out zero out = []
shifted_out (suc k) out = nz (bit_and out 0x80) ∷ shifted_out k (u8 (out <<< 1))

abbrev same_bits : List Bool → List Bool → Bool
same_bits [] [] = true
same_bits (true ∷ xs) (true ∷ ys) = same_bits xs ys
same_bits (false ∷ xs) (false ∷ ys) = same_bits xs ys
same_bits xs ys = false

same_bits→≡ : (xs ys : List Bool) → same_bits xs ys ≡ true → xs ≡ ys
same_bits→≡ [] [] h = refl
same_bits→≡ (true ∷ xs) (true ∷ ys) h = ap (λ zs. true ∷ zs) (same_bits→≡ xs ys h)
same_bits→≡ (false ∷ xs) (false ∷ ys) h = ap (λ zs. false ∷ zs) (same_bits→≡ xs ys h)
same_bits→≡ (true ∷ xs) (false ∷ ys) h = ground arith
same_bits→≡ (false ∷ xs) (true ∷ ys) h = ground arith
same_bits→≡ [] (y ∷ ys) h = ground arith
same_bits→≡ (x ∷ xs) [] h = ground arith

every_byte_shifts : holds_below (λ n. same_bits (shifted_out 8 n) (to_bits 8 n)) 256 ≡ true
unfolding holds_below
every_byte_shifts = refl

pub shifted_out-byte : (out : ℕ) → out < 256 → shifted_out 8 out ≡ to_bits 8 out
shifted_out-byte out h =
    same_bits→≡ (shifted_out 8 out) (to_bits 8 out)
      (holds_below→at (λ n. same_bits (shifted_out 8 n) (to_bits 8 n)) 256 out h every_byte_shifts)

every_byte_returns : holds_below (λ n. from_bits 0 (to_bits 8 n) == n) 256 ≡ true
unfolding holds_below
every_byte_returns = refl

from_bits-to_bits : (value : ℕ) → value < 256 → from_bits 0 (to_bits 8 value) ≡ value
from_bits-to_bits value h =
    (==_iff (from_bits 0 (to_bits 8 value)) value).0
      (holds_below→at (λ n. from_bits 0 (to_bits 8 n) == n) 256 value h every_byte_returns)

from_bits-mod : (bs : List Bool) (n : ℕ) → from_bits (n % 256) bs % 256 ≡ from_bits n bs % 256
from_bits-mod [] n = omega arith
from_bits-mod (b ∷ bs) n =
    let d = if b then 1 else 0 in
    sym (from_bits-mod bs (2 * (n % 256) + d))
    ∙ ap (λ m. from_bits m bs % 256) (same n d)
    ∙ from_bits-mod bs (2 * n + d)
  where
    same : (n d : ℕ) → (2 * (n % 256) + d) % 256 ≡ (2 * n + d) % 256
    same n d = omega arith

pub shift_in :
    (bs : List Bool) (n : ℕ) (b : Bool)
    → from_bits (u8 (bit_or (n <<< 1) (if b then 1 else 0))) bs % 256 ≡ from_bits n (b ∷ bs) % 256
shift_in bs n b =
    ap (λ m. from_bits (m % 256) bs % 256) (digit b)
    ∙ from_bits-mod bs (2 * n + (if b then 1 else 0))
  where
    digit : (b : Bool) → bit_or (n <<< 1) (if b then 1 else 0) ≡ 2 * n + (if b then 1 else 0)
    digit true = omega (arith, bit_or_digit n 1 (omega arith))
    digit false = omega (arith, bit_or_digit n 0 (omega arith))

-- The bits of the byte before are lost.
pub whole_byte : (n value : ℕ) → value < 256 → from_bits n (to_bits 8 value) % 256 ≡ value
whole_byte n value h = omega (arith, from_bits-to_bits value h)
