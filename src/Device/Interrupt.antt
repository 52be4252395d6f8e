-- ===== src/Device/Interrupt.antt =====
-- emulator/interrupt.h: a line with outstanding interrupts, each with its number. The lock that
-- makes the methods atomic is left out.
use hd6301_thing.Common.{
  ℕ, ◌+◌, ◌≡◌, ◌≢◌, refl, ap, sym, arith, Bool, true, false, List, [], ◌∷◌, ◌==◌, if◌then◌else◌,
  u32,
}

-- `interrupts` is the set, without an order that matters and without repetitions.
pub record Interrupt : Type 0 where
  pub next_interrupt_id : ℕ
  pub interrupts : List ℕ
  pub has_interrupt : Bool

unfoldable pub contains : ℕ → List ℕ → Bool
contains id [] = false
contains id (x ∷ xs) = if x == id then true else contains id xs

unfoldable pub insert : ℕ → List ℕ → List ℕ
unfolding contains
insert id xs = if contains id xs then xs else id ∷ xs

unfoldable pub erase : ℕ → List ℕ → List ℕ
erase id [] = []
erase id (x ∷ xs) = let rest = erase id xs in if x == id then rest else x ∷ rest

unfoldable pub is_empty : List ℕ → Bool
is_empty [] = true
is_empty (x ∷ xs) = false

unfoldable pub initial : Interrupt
initial = record { next_interrupt_id = 1; interrupts = []; has_interrupt = false }

-- The number of the new interrupt, and the line. The numbers are those of an `int` of 32 bits, as
-- the natural number with the same bits.
unfoldable pub set_interrupt : Interrupt → ℕ × Interrupt
unfolding insert
set_interrupt line =
    let id = line.next_interrupt_id in
    let next = u32 (id + 1) in
    (
      id,
      record {
        next_interrupt_id = if next == 0 then 1 else next;
        interrupts = insert id line.interrupts;
        has_interrupt = true;
      },
    )

unfoldable pub clear_interrupt : ℕ → Interrupt → Interrupt
unfolding erase is_empty
clear_interrupt id line =
    let rest = erase id line.interrupts in
    record line {
      interrupts = rest;
      has_interrupt = if is_empty rest then false else line.has_interrupt;
    }

-- The line fires exactly when an interrupt is outstanding, and 0 is no number of one.
abbrev pub IsConsistent : Interrupt → Type 0
IsConsistent line =
    (line.has_interrupt ≡ (if is_empty line.interrupts then false else true))
    × (contains 0 line.interrupts ≡ false)
    × (line.next_interrupt_id ≢ 0)

contains-erase :
    (id k : ℕ) (xs : List ℕ) → contains k (erase id xs) ≡ (if k == id then false else contains k xs)
unfolding contains erase
contains-erase id k [] = ground arith
contains-erase id k (x ∷ xs) = ground (arith, contains-erase id k xs)

erase-absent : (id : ℕ) (xs : List ℕ) → contains id xs ≡ false → erase id xs ≡ xs
unfolding contains erase
erase-absent id [] h = refl
erase-absent id (x ∷ xs) h = ground (arith, erase-absent id xs)

contains-insert :
    (id k : ℕ) (xs : List ℕ) → contains k (insert id xs) ≡ (if id == k then true else contains k xs)
unfolding contains insert
contains-insert id k xs = ground arith

insert-nonempty : (id : ℕ) (xs : List ℕ) → is_empty (insert id xs) ≡ false
unfolding contains insert is_empty
insert-nonempty id [] = refl
insert-nonempty id (x ∷ xs) = ground arith

erase-empty : (id : ℕ) (xs : List ℕ) → is_empty xs ≡ true → is_empty (erase id xs) ≡ true
unfolding erase is_empty
erase-empty id [] h = refl
erase-empty id (x ∷ xs) h = ground arith

insert-fresh : (id : ℕ) (xs : List ℕ) → contains id xs ≡ false → insert id xs ≡ id ∷ xs
unfolding insert
insert-fresh id xs h = ground arith

erase-head : (id : ℕ) (xs : List ℕ) → contains id xs ≡ false → erase id (id ∷ xs) ≡ xs
unfolding erase
erase-head id xs h = ground (arith, erase-absent id xs h)

-- A new interrupt keeps the line consistent, makes it fire, and is outstanding under the number
-- given back, which is not 0; the others stay outstanding as they were.
pub set_interrupt_lem :
    (line : Interrupt)
    → IsConsistent line
    → let (id, line') = set_interrupt line in
      IsConsistent line'
      × (line'.has_interrupt ≡ true)
      × (id ≢ 0)
      × ((k : ℕ)
          → contains k line'.interrupts ≡ (if id == k then true else contains k line.interrupts))
unfolding set_interrupt
set_interrupt_lem line (fires, zero_free, next) =
    let nonempty = insert-nonempty line.next_interrupt_id line.interrupts in
    let zero_kept = contains-insert line.next_interrupt_id 0 line.interrupts in
    (ground arith, refl, next, λ k. contains-insert line.next_interrupt_id k line.interrupts)

-- Clearing an interrupt keeps the line consistent and leaves the other interrupts outstanding; the
-- cleared one is not. A line that fires no more has nothing outstanding.
pub clear_interrupt_lem :
    (id : ℕ) (line : Interrupt)
    → IsConsistent line
    → IsConsistent (clear_interrupt id line)
      × ((k : ℕ)
          → contains k (clear_interrupt id line).interrupts
            ≡ (if k == id then false else contains k line.interrupts))
unfolding clear_interrupt
clear_interrupt_lem id line (fires, zero_free, next) =
    let zero_kept = contains-erase id 0 line.interrupts in
    let emptied = erase-empty id line.interrupts in
    (ground arith, λ k. contains-erase id k line.interrupts)

-- Setting an interrupt under a number that is not outstanding and clearing it leaves the line as it
-- was, but for the next number.
pub clear_interrupt-set_interrupt :
    (line : Interrupt)
    → IsConsistent line
    → contains line.next_interrupt_id line.interrupts ≡ false
    → let (id, line') = set_interrupt line in
      clear_interrupt id line' ≡ record line { next_interrupt_id = line'.next_interrupt_id }
unfolding clear_interrupt set_interrupt
clear_interrupt-set_interrupt line (fires, zero_free, next) fresh =
    rw
      (
        insert-fresh line.next_interrupt_id line.interrupts fresh,
        erase-head line.next_interrupt_id line.interrupts fresh,
      )
      (ap
        (λ has. record line {
          next_interrupt_id = (set_interrupt line).1.next_interrupt_id;
          has_interrupt = has;
        })
        (sym fires))
