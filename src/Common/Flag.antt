-- ===== src/Common/Flag.antt =====
-- Single bits of a register: what `&` and `|` with a mask do to the bit that `& 2 ^ k` tests.
use Prim.Native.Nat.{
  ℕ, zero, suc, ◌+◌, ◌*◌, ◌/◌, ◌%◌, ◌^◌, ◌<◌, ◌≤◌, min, max, bit_and, bit_or, bit_and-bitwise,
  bit_or-bitwise,
}
use mathlib.Core.Path.{◌≡◌, ap, sym, ◌∙◌}
use mathlib.Core.Bool.{◌&&◌, ◌||◌}
use native.Mathlib.Nat.{pow-suc, div-div-eq-div-mul}
use native.Mathlib.Omega.{arith}
use hd6301_thing.Common.Tests.{◌==◌, nz}
use hd6301_thing.Common.Bits.{bit_and_step, bit_or_step, test_bit}

pow_twice : (k : ℕ) → 2 ^ suc k ≡ 2 * 2 ^ k
pow_twice k = omega (arith, pow-suc 2 k)

test_bit-suc : (x k : ℕ) → test_bit x (suc k) ≡ test_bit (x / 2) k
test_bit-suc x k =
    ap (λ (d : ℕ). x / d % 2) (pow_twice k)
    ∙ sym (ap (λ (q : ℕ). q % 2) (div-div-eq-div-mul x 2 (2 ^ k)))

pub test_bit-bit_or : (k a b : ℕ) → test_bit (bit_or a b) k ≡ max (test_bit a k) (test_bit b k)
test_bit-bit_or zero a b = omega (arith, bit_or_step a b)
test_bit-bit_or (suc k) a b = omega (
  arith,
  test_bit-suc (bit_or a b) k,
  test_bit-suc a k,
  test_bit-suc b k,
  ap (λ (x : ℕ). test_bit x k) (half_or a b),
  test_bit-bit_or k (a / 2) (b / 2),
)
  where
    half_or : (a b : ℕ) → bit_or a b / 2 ≡ bit_or (a / 2) (b / 2)
    half_or a b = omega (arith, bit_or_step a b)

pub test_bit-bit_and : (k a b : ℕ) → test_bit (bit_and a b) k ≡ min (test_bit a k) (test_bit b k)
test_bit-bit_and zero a b = omega (arith, bit_and_step a b)
test_bit-bit_and (suc k) a b = omega (
  arith,
  test_bit-suc (bit_and a b) k,
  test_bit-suc a k,
  test_bit-suc b k,
  ap (λ (x : ℕ). test_bit x k) (half_and a b),
  test_bit-bit_and k (a / 2) (b / 2),
)
  where
    half_and : (a b : ℕ) → bit_and a b / 2 ≡ bit_and (a / 2) (b / 2)
    half_and a b = omega (arith, bit_and_step a b)

bit_and-zero : (bound a : ℕ) → a ≤ bound → bit_and a 0 ≡ 0
bit_and-zero bound zero h = bit_and-bitwise 0 0
bit_and-zero zero (suc a) h = absurd (omega arith)
bit_and-zero (suc bound) (suc a) h =
    omega (arith, bit_and_step (suc a) 0, bit_and-zero bound (suc a / 2) (omega arith))

bit_and-pow : (k a : ℕ) → bit_and a (2 ^ k) ≡ test_bit a k * 2 ^ k
bit_and-pow zero a = omega (arith, bit_and_step a 1, bit_and-zero (a / 2) (a / 2) (omega arith))
bit_and-pow (suc k) a =
    ap (bit_and a) (pow_twice k)
    ∙ doubled (bit_and-pow k (a / 2))
    ∙ sym (
        ap (λ (d : ℕ). test_bit a (suc k) * d) (pow_twice k)
        ∙ ap (λ (b : ℕ). b * (2 * 2 ^ k)) (test_bit-suc a k))
  where
    half_twice : (n : ℕ) → 2 * n / 2 ≡ n
    half_twice n = omega arith

    move_twice : (a b : ℕ) → a * (2 * b) ≡ 2 * (a * b)
    move_twice a b = omega arith

    doubled :
        bit_and (a / 2) (2 ^ k) ≡ test_bit (a / 2) k * 2 ^ k
        → bit_and a (2 * 2 ^ k) ≡ test_bit (a / 2) k * (2 * 2 ^ k)
    doubled half = omega (
      arith,
      bit_and_step a (2 * 2 ^ k),
      ap (bit_and (a / 2)) (half_twice (2 ^ k)),
      move_twice (test_bit (a / 2) k) (2 ^ k),
    )

pub bit_and_zero : (a : ℕ) → bit_and a 0 ≡ 0
bit_and_zero a = bit_and-zero a a (omega arith)

bit_and_same : (bound a : ℕ) → a ≤ bound → bit_and a a ≡ a
bit_and_same bound zero h = bit_and-bitwise 0 0
bit_and_same zero (suc a) h = absurd (omega arith)
bit_and_same (suc bound) (suc a) h =
    omega (arith, bit_and_step (suc a) (suc a), bit_and_same bound (suc a / 2) (omega arith))

pub bit_and_self : (a : ℕ) → bit_and a a ≡ a
bit_and_self a = bit_and_same a a (omega arith)

bit_or-zero : (bound a : ℕ) → a ≤ bound → bit_or a 0 ≡ a
bit_or-zero bound zero h = bit_or-bitwise 0 0
bit_or-zero zero (suc a) h = absurd (omega arith)
bit_or-zero (suc bound) (suc a) h =
    omega (arith, bit_or_step (suc a) 0, bit_or-zero bound (suc a / 2) (omega arith))

pub bit_and_zero_left : (b : ℕ) → bit_and 0 b ≡ 0
bit_and_zero_left b = bit_and-bitwise 0 b

pub bit_or_zero_left : (b : ℕ) → bit_or 0 b ≡ b
bit_or_zero_left b = bit_or-bitwise 0 b

-- A bit shifted in from the right.
pub bit_or_digit : (a d : ℕ) → d < 2 → bit_or (a * 2) d ≡ a * 2 + d
bit_or_digit a d h = omega (
  arith,
  bit_or_step (a * 2) d,
  ap (λ (x : ℕ). bit_or x (d / 2)) (half a),
  ap (bit_or a) (none_left d h),
  bit_or-zero a a (omega arith),
)
  where
    half : (a : ℕ) → a * 2 / 2 ≡ a
    half a = omega arith

    none_left : (d : ℕ) → d < 2 → d / 2 ≡ 0
    none_left d h = omega arith

pow-positive : (k : ℕ) → 0 < 2 ^ k
pow-positive zero = omega arith
pow-positive (suc k) = omega (arith, pow-suc 2 k, pow-positive k)

-- Testing a register against the mask of one bit.
pub nz-bit_and : (k a : ℕ) → nz (bit_and a (2 ^ k)) ≡ (test_bit a k == 1)
nz-bit_and k a =
    ap nz (bit_and-pow k a) ∙ digit (test_bit a k) (2 ^ k) (omega arith) (pow-positive k)
  where
    digit : (d p : ℕ) → d < 2 → 0 < p → nz (d * p) ≡ (d == 1)
    digit zero p hd hp = ground arith
    digit (suc zero) p hd hp = ground arith
    digit (suc (suc d)) p hd hp = absurd (omega arith)

-- The bit after `| mask`, and after `& mask`.
pub nz-bit_or :
    (k a mask : ℕ)
    → nz (bit_and (bit_or a mask) (2 ^ k)) ≡ (nz (bit_and a (2 ^ k)) || nz (bit_and mask (2 ^ k)))
nz-bit_or k a mask = ground (
  arith,
  nz-bit_and k (bit_or a mask),
  nz-bit_and k a,
  nz-bit_and k mask,
  test_bit-bit_or k a mask,
)

pub nz-bit_and_mask :
    (k a mask : ℕ)
    → nz (bit_and (bit_and a mask) (2 ^ k)) ≡ (nz (bit_and a (2 ^ k)) && nz (bit_and mask (2 ^ k)))
nz-bit_and_mask k a mask = ground (
  arith,
  nz-bit_and k (bit_and a mask),
  nz-bit_and k a,
  nz-bit_and k mask,
  test_bit-bit_and k a mask,
)
