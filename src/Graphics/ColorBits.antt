-- ===== src/Graphics/ColorBits.antt =====
-- The two bits of a character in a word of one colour plane (graphics_state/graphics_state.cc).
use hd6301_thing.Common.{
  ℕ, zero, suc, ◌+◌, ◌*◌, ◌/◌, ◌%◌, ◌^◌, ◌<◌, ◌≡◌, refl, sym, ap, ◌∙◌, arith, Bool, true, ◌&&◌,
  ◌==◌, ==_iff, bit_and, bit_or, ◌<<<◌, ◌>>>◌, u32, holds_below, holds_below→at, bit_and_step,
  bit_or_step, bit_and_zero,
}
use native.Mathlib.Nat.{pow-suc, div-div-eq-div-mul}
use hd6301_thing.Graphics.Colors.{clear_mask}

half-pow : (x k : ℕ) → x / 2 ^ suc k ≡ x / 2 / 2 ^ k
half-pow x k =
    ap (λ (n : ℕ). x / n) (omega (arith, pow-suc 2 k)) ∙ sym (div-div-eq-div-mul x 2 (2 ^ k))

bit_and-div : (k x y : ℕ) → bit_and x y / 2 ^ k ≡ bit_and (x / 2 ^ k) (y / 2 ^ k)
bit_and-div zero x y =
    whole _ ∙ ap (λ (n : ℕ). bit_and n y) (sym (whole x)) ∙ ap (bit_and (x / 1)) (sym (whole y))
  where
    whole : (n : ℕ) → n / 1 ≡ n
    whole n = omega arith
bit_and-div (suc k) x y =
    rw (half-pow _ k, half-pow x k, half-pow y k)
      (ap (λ (n : ℕ). n / 2 ^ k) (omega (arith, bit_and_step x y)) ∙ bit_and-div k (x / 2) (y / 2))

bit_or-div : (k x y : ℕ) → bit_or x y / 2 ^ k ≡ bit_or (x / 2 ^ k) (y / 2 ^ k)
bit_or-div zero x y =
    whole _ ∙ ap (λ (n : ℕ). bit_or n y) (sym (whole x)) ∙ ap (bit_or (x / 1)) (sym (whole y))
  where
    whole : (n : ℕ) → n / 1 ≡ n
    whole n = omega arith
bit_or-div (suc k) x y =
    rw (half-pow _ k, half-pow x k, half-pow y k)
      (ap (λ (n : ℕ). n / 2 ^ k) (omega (arith, bit_or_step x y)) ∙ bit_or-div k (x / 2) (y / 2))

shifted-div : (k n : ℕ) → n * 2 ^ k / 2 ^ k ≡ n
shifted-div zero n = omega arith
shifted-div (suc k) n = half-pow _ k ∙ ap (λ (m : ℕ). m / 2 ^ k) (halved n k) ∙ shifted-div k n
  where
    halved : (n k : ℕ) → n * 2 ^ suc k / 2 ≡ n * 2 ^ k
    halved n k = omega (arith, ap (λ (m : ℕ). n * m) (pow-suc 2 k), twice n (2 ^ k))
      where
        twice : (n m : ℕ) → n * (2 * m) ≡ 2 * (n * m)
        twice n m = omega arith

-- The low two bits.
bit_and-three : (x : ℕ) → bit_and x 3 ≡ x % 4
bit_and-three x = omega (arith, bit_and_step x 3, bit_and_step (x / 2) 1, bit_and_zero (x / 2 / 2))

two_bits : (w m d : ℕ) → m % 4 ≡ 0 → d < 4 → bit_or (bit_and w m) d % 4 ≡ d
two_bits w m d hm hd = omega (
  arith,
  bit_or_step (bit_and w m) d,
  bit_or_step (bit_and w m / 2) (d / 2),
  bit_and_step w m,
  bit_and_step (w / 2) (m / 2),
)

-- Two bits that are written are read.
field :
    (w m d k : ℕ)
    → m / 2 ^ k % 4 ≡ 0
    → d < 4
    → bit_and (bit_or (bit_and w m) (d * 2 ^ k)) (3 * 2 ^ k) / 2 ^ k ≡ d
field w m d k hm hd =
    bit_and-div k _ (3 * 2 ^ k)
    ∙ ap (bit_and _) (shifted-div k 3)
    ∙ bit_and-three _
    ∙ ap (λ (n : ℕ). n % 4)
        (bit_or-div k (bit_and w m) (d * 2 ^ k)
          ∙ ap (bit_or _) (shifted-div k d)
          ∙ ap (λ (n : ℕ). bit_or n d) (bit_and-div k w m))
    ∙ two_bits (w / 2 ^ k) (m / 2 ^ k) d hm hd

-- The shifts and masks of the two bits at a place `2 * j` of a word.
abbrev masks_hold : ℕ → ℕ → Bool
masks_hold j d =
    (clear_mask 3 (2 * j) / 2 ^ (2 * j) % 4 == 0)
    && (u32 (3 <<< (2 * j)) == 3 * 2 ^ (2 * j))
    && (u32 (d <<< (2 * j)) == d * 2 ^ (2 * j))

masks_table : holds_below (λ n. masks_hold (n / 4) (n % 4)) 64 ≡ true
unfolding holds_below clear_mask
masks_table = refl

masks_lem :
    (j d : ℕ)
    → j < 16
    → d < 4
    → (clear_mask 3 (2 * j) / 2 ^ (2 * j) % 4 ≡ 0)
      × (u32 (3 <<< (2 * j)) ≡ 3 * 2 ^ (2 * j))
      × (u32 (d <<< (2 * j)) ≡ d * 2 ^ (2 * j))
masks_lem j d hj hd =
    let mask = clear_mask 3 (2 * j) / 2 ^ (2 * j) % 4 in
    let three = u32 (3 <<< (2 * j)) == 3 * 2 ^ (2 * j) in
    let bits = u32 (d <<< (2 * j)) == d * 2 ^ (2 * j) in
    let (rest, third) = both ((mask == 0) && three) bits held in
    let (first, second) = both (mask == 0) three rest in
    (
      (==_iff mask 0).0 first,
      (==_iff (u32 (3 <<< (2 * j))) (3 * 2 ^ (2 * j))).0 second,
      (==_iff (u32 (d <<< (2 * j))) (d * 2 ^ (2 * j))).0 third,
    )
  where
    quotient : (j d : ℕ) → d < 4 → (4 * j + d) / 4 ≡ j
    quotient j d h = omega arith

    remainder : (j d : ℕ) → d < 4 → (4 * j + d) % 4 ≡ d
    remainder j d h = omega arith

    both : (a b : Bool) → (a && b) ≡ true → (a ≡ true) × (b ≡ true)
    both a b h = ground arith

    held : masks_hold j d ≡ true
    held =
        sym (λ i. masks_hold (quotient j d hd i) (remainder j d hd i))
        ∙ holds_below→at (λ n. masks_hold (n / 4) (n % 4)) 64 (4 * j + d) (omega arith) masks_table

-- The word of one plane after a colour is set there, and the bits that are read from it.
abbrev pub written : ℕ → ℕ → ℕ → ℕ
written w c i = bit_or (bit_and w (clear_mask 3 i)) (u32 (bit_and c 3 <<< i))

abbrev pub read : ℕ → ℕ → ℕ
read i w = bit_and w (u32 (3 <<< i)) >>> i

pub read-written : (j w c : ℕ) → j < 16 → read (2 * j) (written w c (2 * j)) ≡ c % 4
read-written j w c h =
    let (mask, three, bits) = masks_lem j (c % 4) h (omega arith) in
    (λ i.
      bit_and (bit_or (bit_and w (clear_mask 3 (2 * j))) (u32 (bit_and-three c i <<< (2 * j))))
        (three i)
      >>> (2 * j))
    ∙ ap
        (λ (n : ℕ).
          bit_and (bit_or (bit_and w (clear_mask 3 (2 * j))) n) (3 * 2 ^ (2 * j)) / 2 ^ (2 * j))
        bits
    ∙ field w (clear_mask 3 (2 * j)) (c % 4) (2 * j) mask (omega arith)

-- Two bits that are written leave those before them.
other_field : (w m d : ℕ) → m % 4 ≡ 3 → bit_or (bit_and w m) (4 * d) % 4 ≡ w % 4
other_field w m d hm = omega (
  arith,
  bit_or_step (bit_and w m) (4 * d),
  bit_or_step (bit_and w m / 2) (4 * d / 2),
  bit_and_step w m,
  bit_and_step (w / 2) (m / 2),
)

abbrev next_hold : ℕ → ℕ → Bool
next_hold j d =
    (clear_mask 3 (2 * (j + 1)) / 2 ^ (2 * j) % 4 == 3)
    && (u32 (d <<< (2 * (j + 1))) == 4 * d * 2 ^ (2 * j))

next_table : holds_below (λ n. next_hold (n / 4) (n % 4)) 60 ≡ true
unfolding holds_below clear_mask
next_table = refl

next_lem :
    (j d : ℕ)
    → j < 15
    → d < 4
    → (clear_mask 3 (2 * (j + 1)) / 2 ^ (2 * j) % 4 ≡ 3)
      × (u32 (d <<< (2 * (j + 1))) ≡ 4 * d * 2 ^ (2 * j))
next_lem j d hj hd =
    let mask = clear_mask 3 (2 * (j + 1)) / 2 ^ (2 * j) % 4 in
    let bits = u32 (d <<< (2 * (j + 1))) == 4 * d * 2 ^ (2 * j) in
    let (first, second) = both (mask == 3) bits held in
    ((==_iff mask 3).0 first, (==_iff (u32 (d <<< (2 * (j + 1)))) (4 * d * 2 ^ (2 * j))).0 second)
  where
    quotient : (j d : ℕ) → d < 4 → (4 * j + d) / 4 ≡ j
    quotient j d h = omega arith

    remainder : (j d : ℕ) → d < 4 → (4 * j + d) % 4 ≡ d
    remainder j d h = omega arith

    both : (a b : Bool) → (a && b) ≡ true → (a ≡ true) × (b ≡ true)
    both a b h = ground arith

    held : next_hold j d ≡ true
    held =
        sym (λ i. next_hold (quotient j d hd i) (remainder j d hd i))
        ∙ holds_below→at (λ n. next_hold (n / 4) (n % 4)) 60 (4 * j + d) (omega arith) next_table

read_lem : (j w : ℕ) → j < 16 → read (2 * j) w ≡ w / 2 ^ (2 * j) % 4
read_lem j w h =
    let (mask, three, bits) = masks_lem j 0 h (omega arith) in
    ap (λ (n : ℕ). bit_and w n / 2 ^ (2 * j)) three
    ∙ bit_and-div (2 * j) w (3 * 2 ^ (2 * j))
    ∙ ap (bit_and _) (shifted-div (2 * j) 3)
    ∙ bit_and-three _

pub read-written_next :
    (j w c : ℕ) → j < 15 → read (2 * j) (written w c (2 * (j + 1))) ≡ read (2 * j) w
read-written_next j w c h =
    let m = clear_mask 3 (2 * (j + 1)) in
    let (mask, bits) = next_lem j (c % 4) h (omega arith) in
    read_lem j (written w c (2 * (j + 1))) (omega arith)
    ∙ (λ i. bit_or (bit_and w m) (u32 (bit_and-three c i <<< (2 * (j + 1)))) / 2 ^ (2 * j) % 4)
    ∙ ap (λ (n : ℕ). bit_or (bit_and w m) n / 2 ^ (2 * j) % 4) bits
    ∙ ap (λ (n : ℕ). n % 4)
        (bit_or-div (2 * j) (bit_and w m) (4 * (c % 4) * 2 ^ (2 * j))
          ∙ ap (bit_or _) (shifted-div (2 * j) (4 * (c % 4)))
          ∙ ap (λ (n : ℕ). bit_or n (4 * (c % 4))) (bit_and-div (2 * j) w m))
    ∙ other_field (w / 2 ^ (2 * j)) (m / 2 ^ (2 * j)) (c % 4) mask
    ∙ sym (read_lem j w (omega arith))
