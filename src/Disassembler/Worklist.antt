-- ===== src/Disassembler/Worklist.antt =====
-- What the steps of the disassembler do to the addresses that are left to decode and to the
-- worklist (disassembler/disassembler.cc).
pub mod Completion
use hd6301_thing.Common.{
  ℕ, zero, suc, ◌+◌, ◌-◌, ◌*◌, ◌<◌, ◌≤◌, ◌≡◌, ◌≢◌, refl, sym, ap, ◌∙◌, subst, arith, Bool, true,
  false, ◌==◌, ◌&&◌, ◌||◌, not, leb, if◌then◌else◌, Bool-cases, inl, inr, String, List, [], ◌∷◌,
  length, u16, ◌⊎◌, Option, none, some,
}
use hd6301_thing.Disassembler.Rows.{Instruction, is_ill}
use hd6301_thing.Disassembler.Table.{instructions6301}
use hd6301_thing.Disassembler.{
  Disassembler, Annotation, InstructionAnnotation, Label, blank, pending, assign, change, is_some,
  has_code_address, annotate, push, check, check16, update_label, decode_vector, decode_vectors,
  all_set, bytes_at, cover, expect_instruction, follow_destination, follow_next, destination_of,
  set_destination, drop_instruction, follow, decode_instruction, get16, memory_size, vec,
  startup_vectors, loc, ends_flow,
}

-- 1 for an address that is set and not decoded.
abbrev pub todo : Option Annotation → ℕ
todo none = 0
todo (some a) = if a.decoded then 0 else 1

-- No address becomes undecoded, and at most `k` are pushed.
pub record Step (k : ℕ) (d e : Disassembler) : Type 0 where
  pub decodes : (a : ℕ) → todo (e.annotations a) ≤ todo (d.annotations a)
  pub pushes : length e.worklist ≤ k + length d.worklist

pub stay : (d : Disassembler) → Step 0 d d
stay d = record { decodes = λ a. omega arith; pushes = omega arith }

pub weaken : (j k : ℕ) (d e : Disassembler) → j ≤ k → Step j d e → Step k d e
weaken j k d e h s = record { decodes = s.decodes; pushes = let p = s.pushes in omega arith }

pub compose : (j k : ℕ) (d e f : Disassembler) → Step j d e → Step k e f → Step (j + k) d f
compose j k d e f s t = record {
  decodes = λ a. let p = s.decodes a in let q = t.decodes a in omega arith;
  pushes = let p = s.pushes in let q = t.pushes in omega arith;
}

choose :
    (k : ℕ) (d e f : Disassembler) (b : Bool)
    → Step k d e
    → Step k d f
    → Step k d (if b then e else f)
choose k d e f true s t = s
choose k d e f false s t = t

-- A change that leaves `decoded` set where it is.
abbrev Keeps : (Annotation → Annotation) → Type 0
Keeps f = (x : Annotation) → todo (some (f x)) ≤ todo (some x)

change-todo :
    (f : Annotation → Annotation) (x : Option Annotation) → Keeps f → todo (change f x) ≤ todo x
change-todo f none keeps = omega arith
change-todo f (some x) keeps = keeps x

pub annotate-Step :
    (address : ℕ) (f : Annotation → Annotation) (d : Disassembler)
    → Keeps f
    → Step 0 d (annotate address f d)
unfolding annotate
annotate-Step address f d keeps = record {
  decodes = λ a. at a (Bool-cases (a == address));
  pushes = omega arith;
}
  where
    at :
        (a : ℕ)
        → ((a == address) ≡ true) ⊎ ((a == address) ≡ false)
        → todo (assign address (change f (d.annotations address)) d.annotations a)
          ≤ todo (d.annotations a)
    at a (inl e) = rw (e) (rw (same e) (change-todo f (d.annotations address) keeps))
      where
        same : (a == address) ≡ true → a ≡ address
        same e = ground arith
    at a (inr e) = rw (e) (omega arith)

push-Step : (address : ℕ) (d : Disassembler) → Step 1 d (push address d)
unfolding push
push-Step address d = record { decodes = λ a. omega arith; pushes = omega arith }

update_label-Step :
    (address : ℕ) (label : Label) (d : Disassembler) → Step 0 d (update_label address label d)
unfolding update_label
update_label-Step address label d = annotate-Step address _ d (λ x. keeps x (is_some x.label))
  where
    keeps :
        (x : Annotation) (b : Bool)
        → todo (some (if b then x else record x { label = some label })) ≤ todo (some x)
    keeps x true = omega arith
    keeps x false = omega arith

cover-Step : (count address : ℕ) (d : Disassembler) → Step 0 d (cover address count d)
unfolding cover
cover-Step zero address d = stay d
cover-Step (suc count) address d = compose 0 0 d _ _ first (cover-Step count (suc address) _)
  where
    first : Step 0 d (record d {
      annotations =
          assign address (some (record blank { decoded = true; skip = true })) d.annotations;
    })
    first = record { decodes = λ a. at a (a == address); pushes = omega arith }
      where
        at :
            (a : ℕ) (b : Bool)
            → todo
                (if b then some (record blank { decoded = true; skip = true }) else d.annotations a)
              ≤ todo (d.annotations a)
        at a true = omega arith
        at a false = omega arith

expect_instruction-Step : (address : ℕ) (d : Disassembler) → Step 1 d (expect_instruction address d)
unfolding expect_instruction
expect_instruction-Step address d = on (d.annotations address)
  where
    pushed : Disassembler
    pushed = push address (annotate address (λ b. record b { instruction = some pending }) d)

    pushed-Step : Step 1 d pushed
    pushed-Step =
        compose 0 1 d _ pushed
          (annotate-Step address (λ b. record b { instruction = some pending }) d
            (λ x. omega arith))
          (push-Step address _)

    on :
        (x : Option Annotation)
        → Step 1 d (elim x as (λ y. Disassembler) [
          | none ↦ d
          | some a ↦ if is_some a.instruction then d else pushed
        ])
    on none = weaken 0 1 d d (omega arith) (stay d)
    on (some a) =
        choose 1 d d pushed (is_some a.instruction) (weaken 0 1 d d (omega arith) (stay d))
          pushed-Step

follow_next-Step :
    (next : ℕ) (instruction : Instruction) (d : Disassembler)
    → Step 1 d (follow_next next instruction d)
unfolding follow_next
follow_next-Step next instruction d =
    choose 1 d d (expect_instruction next d) (ends_flow instruction || not (check next d))
      (weaken 0 1 d d (omega arith) (stay d)) (expect_instruction-Step next d)

follow_destination-Step :
    (address : ℕ) (destination : Option ℕ) (d : Disassembler)
    → Step 1 d (follow_destination address destination d)
unfolding follow_destination
follow_destination-Step address none d = weaken 0 1 d d (omega arith) (stay d)
follow_destination-Step address (some destination) d =
    choose 1 d _ d (check destination d) followed (weaken 0 1 d d (omega arith) (stay d))
  where
    expected : Disassembler
    expected = expect_instruction destination d

    labelled : Disassembler
    labelled = update_label destination (loc destination) expected

    f : Annotation → Annotation
    f a = record a { instruction = set_destination destination a.instruction }

    followed : Step 1 d (annotate address f labelled)
    followed = compose 1 0 d expected _ (expect_instruction-Step destination d) (
        compose 0 0 expected labelled _ (update_label-Step destination (loc destination) expected)
          (annotate-Step address f labelled (λ x. omega arith)))

decoded-Keeps : (f : Annotation → Annotation) → ((x : Annotation) → (f x).decoded ≡ true) → Keeps f
decoded-Keeps f h x = rw (h x) (omega arith)

follow-Step :
    (address : ℕ) (instruction : Instruction) (d : Disassembler)
    → Step 2 d (follow address instruction d)
unfolding follow
follow-Step address instruction d =
    compose 0 2 d d1 _ (annotate-Step address f d (decoded-Keeps f (λ x. refl))) (
      compose 0 2 d1 d2 _ (cover-Step (instruction.bytes - 1) (address + 1) d1) (
        compose 1 1 d2 d3 _ (follow_destination-Step address target d2)
          (follow_next-Step (u16 (address + instruction.bytes)) instruction d3)))
  where
    bytes : List ℕ
    bytes = bytes_at address instruction.bytes d

    f : Annotation → Annotation
    f a = record a { value = bytes; decoded = true }

    d1 : Disassembler
    d1 = annotate address f d

    d2 : Disassembler
    d2 = cover (address + 1) (instruction.bytes - 1) d1

    target : Option ℕ
    target = destination_of address instruction bytes

    d3 : Disassembler
    d3 = follow_destination address target d2

drop_instruction-Step : (address : ℕ) (d : Disassembler) → Step 2 d (drop_instruction address d)
unfolding drop_instruction
drop_instruction-Step address d =
    weaken 0 2 d _ (omega arith)
      (annotate-Step address (λ a. record a { instruction = none }) d (λ x. omega arith))

pub decode_instruction-Step :
    (address : ℕ) (d : Disassembler) → Step 2 d (decode_instruction address d)
unfolding decode_instruction
decode_instruction-Step address d = choose 2 d _ _ (is_ill instruction.mode) dropped (
    choose 2 d _ _ (leb memory_size (address + instruction.bytes - 1)) dropped (
      choose 2 d _ _ (all_set (address + 1) (instruction.bytes - 1) d1)
        (compose 0 2 d d1 _ known-Step (follow-Step address instruction d1))
        (weaken 0 2 d d1 (omega arith) known-Step)))
  where
    instruction : Instruction
    instruction = instructions6301 (d.memory address)

    known : InstructionAnnotation
    known = record { instruction = instruction; destination_address = none }

    d1 : Disassembler
    d1 = annotate address (λ a. record a { instruction = some known }) d

    known-Step : Step 0 d d1
    known-Step =
        annotate-Step address (λ a. record a { instruction = some known }) d (λ x. omega arith)

    dropped : Step 2 d (drop_instruction address d)
    dropped = drop_instruction-Step address d

pub decode_vector-Step :
    (label : String) (address : ℕ) (d : Disassembler) → Step 1 d (decode_vector label address d)
unfolding decode_vector
decode_vector-Step label address d =
    choose 1 d d _
      (not (check16 address d)
        || has_code_address (d.annotations address)
        || not (check destination d))
      (weaken 0 1 d d (omega arith) (stay d))
      (compose 0 1 d d1 _ (annotate-Step address f d (decoded-Keeps f (λ x. refl))) (
        compose 0 1 d1 d2 _ (annotate-Step (address + 1) g d1 (λ x. omega arith)) (
          compose 0 1 d2 d3 _ (annotate-Step destination h d2 (λ x. omega arith))
            (push-Step destination d3))))
  where
    destination : ℕ
    destination = get16 address d

    f : Annotation → Annotation
    f a = record a {
      code_address = some destination;
      label = if address == 0xfff0 then some startup_vectors else a.label;
      decoded = true;
    }

    g : Annotation → Annotation
    g a = record a { skip = true }

    h : Annotation → Annotation
    h a = record a { instruction = some pending; label = some (vec label) }

    d1 : Disassembler
    d1 = annotate address f d

    d2 : Disassembler
    d2 = annotate (address + 1) g d1

    d3 : Disassembler
    d3 = annotate destination h d2
