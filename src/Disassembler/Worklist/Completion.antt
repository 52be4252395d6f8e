-- ===== src/Disassembler/Worklist/Completion.antt =====
-- The loop of the disassembler ends (disassembler/disassembler.cc).
use hd6301_thing.Common.{
  ℕ, zero, suc, ◌+◌, ◌*◌, ◌<◌, ◌≤◌, ◌≡◌, refl, ap, ◌∙◌, arith, Bool, true, false, ◌==◌, leb,
  if◌then◌else◌, Bool-cases, inl, inr, List, [], ◌∷◌, length, String, Option, none, some,
}
use hd6301_thing.Disassembler.{
  Disassembler, Annotation, is_some, annotate, decode_instruction, decode_vector, decode_vectors,
  decode_each, vectors, visit, visit_next, work, disassemble, change,
}
use hd6301_thing.Disassembler.Worklist.{
  todo, Step, stay, weaken, compose, annotate-Step, decode_instruction-Step, decode_vector-Step,
}

-- The addresses below `n` that are set and not decoded.
unfoldable count : ℕ → (ℕ → Option Annotation) → ℕ
count zero f = 0
count (suc n) f = todo (f n) + count n f

todo_most : (x : Option Annotation) → todo x ≤ 1
todo_most none = omega arith
todo_most (some a) = bit_most a.decoded
  where
    bit_most : (b : Bool) → (if b then 0 else 1) ≤ 1
    bit_most true = omega arith
    bit_most false = omega arith

count_most : (n : ℕ) (f : ℕ → Option Annotation) → count n f ≤ n
unfolding count
count_most zero f = omega arith
count_most (suc n) f = let t = todo_most (f n) in let c = count_most n f in omega arith

count-less :
    (n : ℕ) (f g : ℕ → Option Annotation)
    → ((a : ℕ) → todo (g a) ≤ todo (f a))
    → count n g ≤ count n f
unfolding count
count-less zero f g h = omega arith
count-less (suc n) f g h = let t = h n in let c = count-less n f g h in omega arith

-- One more is decoded.
count-one_less :
    (n address : ℕ) (f g : ℕ → Option Annotation)
    → ((a : ℕ) → todo (g a) ≤ todo (f a))
    → address < n
    → todo (f address) ≡ 1
    → todo (g address) ≡ 0
    → suc (count n g) ≤ count n f
unfolding count
count-one_less zero address f g h lt hf hg = absurd (omega arith)
count-one_less (suc n) address f g h lt hf hg = elim (Bool-cases (address == n)) [
  | inl e ↦
      let c = count-less n f g h in
      let gone = ap (λ a. todo (g a)) (same e) in
      let was = ap (λ a. todo (f a)) (same e) in omega arith
  | inr e ↦ let t = h n in let c = count-one_less n address f g h (below e) hf hg in omega arith
]
  where
    same : (address == n) ≡ true → address ≡ n
    same e = ground arith

    below : (address == n) ≡ false → address < n
    below e = ground arith

-- No address above the memory is left to decode.
abbrev pub Confined : Disassembler → Type 0
Confined d = (a : ℕ) → 65536 ≤ a → todo (d.annotations a) ≡ 0

Step-Confined : (k : ℕ) (d e : Disassembler) → Step k d e → Confined d → Confined e
Step-Confined k d e s c a h = let p = s.decodes a in let z = c a h in omega arith

abbrev measure : Disassembler → ℕ → ℕ
measure d waiting = 3 * count 65536 d.annotations + waiting

mark : Annotation → Annotation
mark b = record b { decoded = true }

mark_keeps : (x : Annotation) → todo (some (mark x)) ≤ todo (some x)
unfolding mark
mark_keeps x = omega arith

mark-todo :
    (address : ℕ) (d : Disassembler) → todo ((annotate address mark d).annotations address) ≡ 0
unfolding annotate mark
mark-todo address d = rw (equal) (marked (d.annotations address))
  where
    equal : (address == address) ≡ true
    equal = ground arith

    marked : (x : Option Annotation) → todo (change mark x) ≡ 0
    marked none = refl
    marked (some a) = refl

todo-below :
    (address : ℕ) (d : Disassembler)
    → Confined d
    → todo (d.annotations address) ≡ 1
    → address < 65536
todo-below address d c h = elim (Bool-cases (leb 65536 address)) [
  | inl e ↦ let z = c address (above e) in absurd (omega arith)
  | inr e ↦ ground arith
]
  where
    above : leb 65536 address ≡ true → 65536 ≤ address
    above e = ground arith

-- A round leaves less to do than the address that it takes off the worklist and the rest.
round_less :
    (address : ℕ) (rest : List ℕ) (d : Disassembler)
    → Confined d
    → let e = visit_next address rest d in
      Confined e × (measure e (length e.worklist) < measure d (suc (length rest)))
unfolding visit_next visit mark
round_less address rest d confined = on (d.annotations address) refl
  where
    d0 : Disassembler
    d0 = record d { worklist = rest }

    skipped : Confined d0 × (measure d0 (length rest) < measure d (suc (length rest)))
    skipped = (confined, omega arith)

    decoded_now :
        (d1 : Disassembler)
        → Step 2 d0 d1
        → todo (d.annotations address) ≡ 1
        → let e = annotate address mark d1 in
          Confined e × (measure e (length e.worklist) < measure d (suc (length rest)))
    decoded_now d1 s one =
        let e = annotate address mark d1 in
        let marked = compose 2 0 d0 d1 e s (annotate-Step address mark d1 mark_keeps) in
        let fewer =
          count-one_less 65536 address d.annotations e.annotations marked.decodes
            (todo-below address d confined one) one (mark-todo address d1) in
        let pushed = marked.pushes in (Step-Confined 2 d0 e marked confined, omega arith)

    Less : Disassembler → Type 0
    Less e = Confined e × (measure e (length e.worklist) < measure d (suc (length rest)))

    by_flag :
        (a : Annotation) (b : Bool)
        → d.annotations address ≡ some a
        → a.decoded ≡ b
        → Less (
            if b
            then d0
            else annotate address mark
                (if is_some a.instruction then decode_instruction address d0 else d0))
    by_flag a true eq e = skipped
    by_flag a false eq e =
        decoded_now (if is_some a.instruction then decode_instruction address d0 else d0)
          (maybe (is_some a.instruction)) (ap todo eq ∙ ap (λ b. if b then 0 else 1) e)
      where
        maybe : (b : Bool) → Step 2 d0 (if b then decode_instruction address d0 else d0)
        maybe true = decode_instruction-Step address d0
        maybe false = weaken 0 2 d0 d0 (omega arith) (stay d0)

    on : (x : Option Annotation) → d.annotations address ≡ x → Less (visit x address d0)
    on none eq = skipped
    on (some a) eq = by_flag a a.decoded eq refl

-- Fuel for the rounds that are left.
work_ends :
    (fuel : ℕ) (waiting : List ℕ) (d : Disassembler)
    → d.worklist ≡ waiting
    → Confined d
    → measure d (length waiting) ≤ fuel
    → is_some (work fuel waiting d) ≡ true
unfolding work
work_ends fuel [] d e c h = refl
work_ends zero (address ∷ rest) d e c h = absurd (omega arith)
work_ends (suc fuel) (address ∷ rest) d e c h =
    let next = visit_next address rest d in
    let (confined, less) = round_less address rest d c in
    work_ends fuel next.worklist next refl confined (omega arith)

decode_each-Step :
    (vs : List (String × ℕ)) (d : Disassembler) → Step (length vs) d (decode_each vs d)
unfolding decode_each
decode_each-Step [] d = stay d
decode_each-Step ((label, address) ∷ rest) d =
    let d1 = decode_vector label address d in
    weaken (1 + length rest) (suc (length rest)) d _ (omega arith) (
      compose 1 (length rest) d d1 _ (decode_vector-Step label address d)
        (decode_each-Step rest d1))

-- The loop of `disassemble` ends: it takes at most three rounds for each of the 65536 addresses, one
-- for each of the eight vectors, and one for each address that was on the worklist before. No
-- address above the memory is annotated as undecoded.
pub disassemble-ends :
    (d : Disassembler) (fuel : ℕ)
    → Confined d
    → 196616 + length d.worklist ≤ fuel
    → is_some (disassemble fuel d) ≡ true
unfolding disassemble decode_vectors
disassemble-ends d fuel c h =
    let d1 = decode_vectors d in
    let s = decode_each-Step vectors d in
    let most = count_most 65536 d1.annotations in
    let pushed = s.pushes in
    work_ends fuel d1.worklist d1 refl (Step-Confined 8 d d1 s c) (omega arith)
