-- ===== src/Device/SdCard/Blocks.antt =====
-- Blocks of bytes in the image of the card (emulator/sd_card_spi.cc).
use hd6301_thing.Common.{
  ℕ, zero, suc, ◌+◌, ◌≤◌, ◌≡◌, refl, ap, arith, List, [], ◌∷◌, ◌++◌, length, take, drop,
}
use hd6301_thing.Device.SdCard.{write_at}

pub take-length : (bs cs : List ℕ) → take (length bs) (bs ++ cs) ≡ bs
take-length [] cs = refl
take-length (b ∷ bs) cs = ap (λ xs. b ∷ xs) (take-length bs cs)

take-write_start : (bs image : List ℕ) → take (length bs) (write_at 0 bs image) ≡ bs
unfolding write_at
take-write_start [] image = refl
take-write_start (b ∷ bs) [] = ap (λ xs. b ∷ xs) (take-write_start bs [])
take-write_start (b ∷ bs) (x ∷ image) = ap (λ xs. b ∷ xs) (take-write_start bs image)

-- What was written is found.
pub take-drop-write_at :
    (p : ℕ) (bs image : List ℕ) → take (length bs) (drop p (write_at p bs image)) ≡ bs
unfolding write_at
take-drop-write_at zero bs image = take-write_start bs image
take-drop-write_at (suc p) bs [] = take-drop-write_at p bs []
take-drop-write_at (suc p) bs (x ∷ image) = take-drop-write_at p bs image

-- What stands before is as it was,
pub take-drop-write_before :
    (q n p : ℕ) (bs image : List ℕ)
    → q + n ≤ p
    → p ≤ length image
    → take n (drop q (write_at p bs image)) ≡ take n (drop q image)
unfolding write_at
take-drop-write_before q zero p bs image h hp = refl
take-drop-write_before zero (suc n) zero bs image h hp = absurd (omega arith)
take-drop-write_before zero (suc n) (suc p) bs [] h hp = absurd (omega arith)
take-drop-write_before zero (suc n) (suc p) bs (x ∷ image) h hp =
    ap (λ xs. x ∷ xs) (take-drop-write_before 0 n p bs image (omega arith) (omega arith))
take-drop-write_before (suc q) (suc n) zero bs image h hp = absurd (omega arith)
take-drop-write_before (suc q) (suc n) (suc p) bs [] h hp = absurd (omega arith)
take-drop-write_before (suc q) (suc n) (suc p) bs (x ∷ image) h hp =
    take-drop-write_before q (suc n) p bs image (omega arith) (omega arith)

-- and so is what stands behind.
pub drop-write_at :
    (q p : ℕ) (bs image : List ℕ)
    → p + length bs ≤ q
    → q ≤ length image
    → drop q (write_at p bs image) ≡ drop q image
unfolding write_at
drop-write_at zero zero [] image h hq = refl
drop-write_at (suc q) zero [] image h hq = refl
drop-write_at zero zero (b ∷ bs) image h hq = absurd (omega arith)
drop-write_at zero (suc p) bs image h hq = absurd (omega arith)
drop-write_at (suc q) zero (b ∷ bs) [] h hq = absurd (omega arith)
drop-write_at (suc q) zero (b ∷ bs) (x ∷ image) h hq =
    drop-write_at q 0 bs image (omega arith) (omega arith)
drop-write_at (suc q) (suc p) bs [] h hq = absurd (omega arith)
drop-write_at (suc q) (suc p) bs (x ∷ image) h hq =
    drop-write_at q p bs image (omega arith) (omega arith)

pub length-take-drop :
    (p n : ℕ) (image : List ℕ) → p + n ≤ length image → length (take n (drop p image)) ≡ n
length-take-drop zero zero image h = refl
length-take-drop zero (suc n) [] h = absurd (omega arith)
length-take-drop zero (suc n) (x ∷ image) h = ap suc (length-take-drop zero n image (omega arith))
length-take-drop (suc p) n [] h = absurd (omega arith)
length-take-drop (suc p) n (x ∷ image) h = length-take-drop p n image (omega arith)
