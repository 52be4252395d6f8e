-- ===== src/Cpu/Branches.antt =====
-- What the conditional branches decide after a comparison (emulator/cpu6301.cc).
use hd6301_thing.Common.{
  excess8, ℕ, ◌+◌, ◌-◌, ◌%◌, ◌<◌, false, not, xor, ◌&&◌, ◌≡◌, ◌↔◌, arith, ltb, leb, ◌==◌, bit,
}
use hd6301_thing.Cpu.Alu.{StatusRegister, cmp}
use hd6301_thing.Cpu.Instruction.{is_bhi, is_bls, is_bge, is_blt, is_bgt, is_ble}
use hd6301_thing.Cpu.Flags.{cmp_lem}

-- N differs from V exactly when the signed difference is negative.
signed_less :
    (d m : ℕ)
    → d < 256
    → m < 256
    → xor
        (leb 128 ((d + 256 - m) % 256))
        (not (leb (excess8 m) (excess8 d + 128) && ltb (excess8 d) (excess8 m + 128)))
      ≡ ltb (excess8 d) (excess8 m)
signed_less d m hd hm = ground arith

excess8-eq : (d m : ℕ) → d < 256 → m < 256 → (d == m) ≡ (excess8 d == excess8 m)
excess8-eq d m hd hm = ground arith

-- What the sums of two Boolean values say of an order.
order_sums :
    (x y : ℕ)
    → ((bit (ltb x y) + bit (x == y) == 0) ≡ ltb y x)
      × ((bit (ltb x y) + bit (x == y) == 1) ≡ leb x y)
      × ((bit (ltb x y) == 0) ≡ leb y x)
      × ((bit (ltb x y) == 1) ≡ ltb x y)
      × ((bit (x == y) + bit (ltb x y) == 0) ≡ ltb y x)
      × ((bit (x == y) + bit (ltb x y) == 1) ≡ leb x y)
order_sums x y = ground arith

-- After `cmp` of two bytes the unsigned branches decide their order (bhi: >, bls: ≤), and the
-- signed ones the order of the signed numbers that they stand for (bge: ≥, blt: <, bgt: >, ble: ≤).
pub branches_after_cmp :
    (dest mem : ℕ) (sr : StatusRegister)
    → dest < 256
    → mem < 256
    → let s = cmp dest mem sr in
      (is_bhi s ≡ ltb mem dest)
      × (is_bls s ≡ leb dest mem)
      × (is_bge s ≡ leb (excess8 mem) (excess8 dest))
      × (is_blt s ≡ ltb (excess8 dest) (excess8 mem))
      × (is_bgt s ≡ ltb (excess8 mem) (excess8 dest))
      × (is_ble s ≡ leb (excess8 dest) (excess8 mem))
unfolding is_bhi is_bls is_bge is_blt is_bgt is_ble
branches_after_cmp dest mem sr hd hm =
    let u = order_sums dest mem in
    let v = order_sums (excess8 dest) (excess8 mem) in
    rw (cmp_lem dest mem sr hd hm, signed_less dest mem hd hm)
      (u.0, u.1, v.2, v.3, rw (excess8-eq dest mem hd hm) v.4, rw (excess8-eq dest mem hd hm) v.5)

-- `bhi` and `bls`, and likewise `bgt` and `ble`, are complementary for exactly the flags that the
-- code's sums do not add up to 2: not both of C and Z, and not Z with N different from V.
pub complementary_iff :
    (s : StatusRegister)
    → ((is_bls s ≡ not (is_bhi s)) ↔ ((s.c && s.z) ≡ false))
      × ((is_ble s ≡ not (is_bgt s)) ↔ ((s.z && xor s.n s.v) ≡ false))
unfolding is_bhi is_bls is_bgt is_ble
complementary_iff s = ground arith
