-- ===== src/Common/Bits.antt =====
-- Laws of `&`, `|` and `^` at every width, from one equation for the lowest digit.
use Prim.Native.Nat.{
  ℕ, zero, suc, ◌+◌, ◌-◌, ◌*◌, ◌/◌, ◌%◌, ◌^◌, ◌≤◌, ◌<◌, min, max, bit_and, bit_or, bit_xor, digits,
  differ, bitwise, bit_and-bitwise, bit_or-bitwise, bit_xor-bitwise,
}
use mathlib.Core.Path.{◌≡◌, refl, ap, sym, ◌∙◌}
use mathlib.Core.Bool.{Bool, true, ◌&&◌}
use native.Mathlib.Nat.{pow-suc, div-div-eq-div-mul}
use native.Mathlib.Omega.{arith}
use hd6301_thing.Common.Tests.{◌==◌, ==_iff}

-- More fuel than the first argument changes nothing in `digits`.
add_suc_left : (n m : ℕ) → suc n + m ≡ suc (n + m)
add_suc_left n m = omega arith

split : (n m : ℕ) → m ≤ n → n ≡ m + (n - m)
split n m le = omega arith

module _ (end : ℕ → ℕ) (op : ℕ → ℕ → ℕ) where
  digits-zero : (fuel y : ℕ) → digits end op fuel zero y ≡ end y
  digits-zero zero y = refl
  digits-zero (suc fuel) y = refl

  digits-fuel :
      (x y fuel extra : ℕ) → x ≤ fuel → digits end op (fuel + extra) x y ≡ digits end op fuel x y
  digits-fuel zero y fuel extra le = digits-zero (fuel + extra) y ∙ sym (digits-zero fuel y)
  digits-fuel (suc x) y zero extra le = absurd (omega arith)
  digits-fuel (suc x) y (suc fuel) extra le = rw (add_suc_left fuel extra) (
      ap (λ rest. rest * 2 + op (suc x % 2) (y % 2))
        (digits-fuel (suc x / 2) (y / 2) fuel extra (omega arith)))

  digits-least : (x y fuel : ℕ) → x ≤ fuel → digits end op fuel x y ≡ digits end op x x y
  digits-least x y fuel le =
      ap (λ n. digits end op n x y) (split fuel x le) ∙ digits-fuel x y x (fuel - x) (omega arith)

  bitwise_digit :
      (a b : ℕ)
      → bitwise end op (suc a) b ≡ op (suc a % 2) (b % 2) + 2 * bitwise end op (suc a / 2) (b / 2)
  bitwise_digit a b = omega (arith, digits-least (suc a / 2) (b / 2) a (omega arith))

pub bit_and_step : (x y : ℕ) → bit_and x y ≡ min (x % 2) (y % 2) + 2 * bit_and (x / 2) (y / 2)
bit_and_step (suc x) y = simp bit_and-bitwise (bitwise_digit (λ end. 0) min x y)
bit_and_step zero y = simp bit_and-bitwise (omega arith)

pub bit_or_step : (x y : ℕ) → bit_or x y ≡ max (x % 2) (y % 2) + 2 * bit_or (x / 2) (y / 2)
bit_or_step (suc x) y = simp bit_or-bitwise (bitwise_digit (λ end. end) max x y)
bit_or_step zero y = simp bit_or-bitwise (omega arith)

differ_digits : (x y : ℕ) → x < 2 → y < 2 → differ x y ≡ (x + y) % 2
differ_digits zero y hx hy = omega arith
differ_digits (suc zero) zero hx hy = refl
differ_digits (suc zero) (suc zero) hx hy = refl
differ_digits (suc zero) (suc (suc y)) hx hy = absurd (omega arith)
differ_digits (suc (suc x)) y hx hy = absurd (omega arith)

pub bit_xor_step : (a b : ℕ) → bit_xor a b ≡ bit_xor (a / 2) (b / 2) * 2 + (a % 2 + b % 2) % 2
bit_xor_step zero b = simp bit_xor-bitwise (omega arith)
bit_xor_step (suc a) b = omega (
  arith,
  bit_xor-bitwise (suc a) b,
  bit_xor-bitwise (suc a / 2) (b / 2),
  bitwise_digit (λ y. y) differ a b,
  differ_digits (suc a % 2) (b % 2) (omega arith) (omega arith),
)

-- No operation makes a number wider.
pub bit_and-lt : (k a b : ℕ) → a < 2 ^ k → bit_and a b < 2 ^ k
bit_and-lt zero zero b h = omega (arith, bit_and-bitwise 0 b)
bit_and-lt zero (suc a) b h = absurd (omega arith)
bit_and-lt (suc k) a b h = omega (
  arith,
  bit_and_step a b,
  pow-suc 2 k,
  bit_and-lt k (a / 2) (b / 2) (omega (arith, pow-suc 2 k)),
)

pub bit_or-lt : (k a b : ℕ) → a < 2 ^ k → b < 2 ^ k → bit_or a b < 2 ^ k
bit_or-lt zero zero b ha hb = omega (arith, bit_or-bitwise 0 b)
bit_or-lt zero (suc a) b ha hb = absurd (omega arith)
bit_or-lt (suc k) a b ha hb = omega (
  arith,
  bit_or_step a b,
  pow-suc 2 k,
  bit_or-lt k (a / 2) (b / 2) (omega (arith, pow-suc 2 k)) (omega (arith, pow-suc 2 k)),
)

pub bit_xor-lt : (k a b : ℕ) → a < 2 ^ k → b < 2 ^ k → bit_xor a b < 2 ^ k
bit_xor-lt zero zero b ha hb = omega (arith, bit_xor-bitwise 0 b)
bit_xor-lt zero (suc a) b ha hb = absurd (omega arith)
bit_xor-lt (suc k) a b ha hb = omega (
  arith,
  bit_xor_step a b,
  pow-suc 2 k,
  bit_xor-lt k (a / 2) (b / 2) (omega (arith, pow-suc 2 k)) (omega (arith, pow-suc 2 k)),
)

-- The k-th binary digit.
abbrev pub test_bit : ℕ → ℕ → ℕ
test_bit x k = x / 2 ^ k % 2

-- A law over a small range is tested at each value.
unfoldable pub holds_below : (ℕ → Bool) → ℕ → Bool
holds_below test zero = true
holds_below test (suc bound) = holds_below test bound && test bound

pub holds_below→at :
    (test : ℕ → Bool) (bound value : ℕ)
    → value < bound
    → holds_below test bound ≡ true
    → test value ≡ true
unfolding holds_below
holds_below→at test (suc bound) value lt held =
    let earlier = holds_below→at test bound value in ground arith
holds_below→at test zero value lt held = absurd (omega arith)

bit_or-zero : (k a : ℕ) → a < 2 ^ k → bit_or a 0 ≡ a
bit_or-zero zero zero h = omega (arith, bit_or-bitwise 0 0)
bit_or-zero zero (suc a) h = absurd (omega arith)
bit_or-zero (suc k) a h =
    omega (arith, bit_or_step a 0, bit_or-zero k (a / 2) (omega (arith, pow-suc 2 k)))

twice-pow : (a k : ℕ) → a * 2 ^ suc k ≡ 2 * (a * 2 ^ k)
twice-pow a k = omega (arith, ap (λ (t : ℕ). a * t) (pow-suc 2 k))

-- `(high << k) | low` is a sum when `low` has at most k digits; `high` has at most m.
pub bit_or_concat :
    (k m high low : ℕ) → high < 2 ^ m → low < 2 ^ k → bit_or (high * 2 ^ k) low ≡ high * 2 ^ k + low
bit_or_concat zero m high zero hh hl = omega (arith, bit_or-zero m (high * 1) (omega (arith, hh)))
bit_or_concat zero m high (suc low) hh hl = absurd (omega arith)
bit_or_concat (suc k) m high low hh hl = rw (twice-pow high k) (
    ground (
      arith,
      bit_or_step (2 * (high * 2 ^ k)) low,
      bit_or_concat k m high (low / 2) hh (omega (arith, pow-suc 2 k)),
    ))

half-pow : (k : ℕ) → (2 ^ suc k / 2 ≡ 2 ^ k) × (2 ^ suc k % 2 ≡ 0)
half-pow k = omega (arith, pow-suc 2 k)

div-div_two : (x n : ℕ) → x / (2 * n) ≡ x / 2 / n
div-div_two x n = sym (div-div-eq-div-mul x 2 n)

-- `x & 0x80` and the like: the highest digit alone.
pub bit_and_top : (k x : ℕ) → x < 2 ^ suc k → bit_and x (2 ^ k) ≡ x / 2 ^ k * 2 ^ k
bit_and_top zero zero h = refl
bit_and_top zero (suc zero) h = refl
bit_and_top zero (suc (suc x)) h = absurd (omega arith)
bit_and_top (suc k) x h = ground (
  arith,
  bit_and_step x (2 ^ suc k),
  pow-suc 2 k,
  bit_and_top k (x / 2) (omega (arith, pow-suc 2 (suc k))),
  half-pow k,
  div-div_two x (2 ^ k),
  twice-pow (x / 2 ^ suc k) k,
)

bit_and_one_table : holds_below (λ x. bit_and x 1 == x % 2) 256 ≡ true
unfolding holds_below
bit_and_one_table = refl

-- `x & 1` on a byte.
pub bit_and-one : (x : ℕ) → x < 256 → bit_and x 1 ≡ x % 2
bit_and-one x h = (==_iff _ _).0 (holds_below→at _ 256 x h bit_and_one_table)

-- `x & 0x80` on a byte.
pub bit_and-128 : (x : ℕ) → x < 256 → bit_and x 128 ≡ x / 128 * 128
bit_and-128 x h = bit_and_top 7 x h

-- `x & 0x8000` on 16 bits.
pub bit_and-32768 : (x : ℕ) → x < 65536 → bit_and x 32768 ≡ x / 32768 * 32768
bit_and-32768 x h = bit_and_top 15 x h
