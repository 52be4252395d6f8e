-- ===== src/Disassembler.antt =====
-- disassembler/disassembler.h and .cc: finding the instructions in a memory of 64 KB, up to the
-- printing. Vectors over all addresses are functions of the address. Annotations are read through
-- an optional that is set wherever the code dereferences it; an update of one that is not set,
-- which C++ leaves undefined, changes nothing.
pub mod Rows
pub mod Table
pub mod Agreement
pub mod Worklist
use hd6301_thing.Common.{
  ℕ, zero, suc, ◌+◌, ◌-◌, ◌*◌, ◌%◌, Bool, true, false, ◌==◌, ◌&&◌, ◌||◌, not, ltb, leb, bit_or,
  if◌then◌else◌, String, List, [], ◌∷◌, ◌++◌, length, get_or, u16, ◌<<<◌, Option, none, some,
}
use Prim.Native.Nat.{lt, eq, gt}
use Prim.Native.String.{compare}
use hd6301_thing.Disassembler.Rows.{
  AddressingMode, Instruction, unused, is_ill, is_rel, is_idx, rel, dir, ext,
}
use hd6301_thing.Disassembler.Table.{instructions6301}

-- The texts of labels, before they are formatted.
pub data Label : Type 0 where
  vec : String → Label
  startup_vectors : Label
  loc : ℕ → Label

pub record InstructionAnnotation : Type 0 where
  pub instruction : Instruction
  pub destination_address : Option ℕ

pub record Annotation : Type 0 where
  pub code_address : Option ℕ
  pub data_address : Option ℕ
  pub instruction : Option InstructionAnnotation
  pub label : Option Label
  pub decoded : Bool
  pub skip : Bool
  pub value : List ℕ

abbrev pub blank : Annotation
blank = record {
  code_address = none;
  data_address = none;
  instruction = none;
  label = none;
  decoded = false;
  skip = false;
  value = [];
}

-- An instruction that is not known yet.
abbrev pub pending : InstructionAnnotation
pending = record { instruction = unused; destination_address = none }

pub record Disassembler : Type 0 where
  pub memory : ℕ → ℕ
  pub annotations : ℕ → Option Annotation
  pub worklist : List ℕ

abbrev pub memory_size : ℕ
memory_size = 0x10000

unfoldable pub empty : Disassembler
empty = record { memory = λ a. 0; annotations = λ a. none; worklist = [] }

abbrev pub is_some {ℓ} : {A : Type ℓ} → Option A → Bool
is_some none = false
is_some (some x) = true

abbrev pub has_instruction : Option Annotation → Bool
has_instruction none = false
has_instruction (some a) = is_some a.instruction

abbrev pub has_code_address : Option Annotation → Bool
has_code_address none = false
has_code_address (some a) = is_some a.code_address

abbrev pub is_decoded : Option Annotation → Bool
is_decoded none = false
is_decoded (some a) = a.decoded

-- `map[address] = value`.
abbrev pub assign {ℓ} : {A : Type ℓ} → ℕ → A → (ℕ → A) → ℕ → A
assign address value f a = if a == address then value else f a

-- The loop of `set_data`.
unfoldable pub store_bytes : ℕ → List ℕ → Disassembler → Disassembler
store_bytes address [] d = d
store_bytes address (b ∷ bs) d = store_bytes (suc address) bs (record d {
  memory = assign address b d.memory;
  annotations = assign address (some blank) d.annotations;
})

-- The sum is unsigned: it wraps below 0 for no bytes at address 0, which are refused.
unfoldable pub set_data : ℕ → List ℕ → Disassembler → Option Disassembler
unfolding store_bytes
set_data start bytes d =
    if start + length bytes == 0 || ltb memory_size (start + length bytes - 1)
    then none
    else some (store_bytes start bytes d)

unfoldable pub get16 : ℕ → Disassembler → ℕ
get16 address d =
    if ltb 0xfffe address then 0 else bit_or (d.memory address <<< 8) (d.memory (u16 (address + 1)))

unfoldable pub check : ℕ → Disassembler → Bool
check address d = is_some (d.annotations address)

unfoldable pub check16 : ℕ → Disassembler → Bool
check16 address d =
    if leb memory_size (address + 1)
    then false
    else is_some (d.annotations address) && is_some (d.annotations (address + 1))

-- A change of the annotation at an address.
abbrev pub change : (Annotation → Annotation) → Option Annotation → Option Annotation
change f none = none
change f (some a) = some (f a)

unfoldable pub annotate : ℕ → (Annotation → Annotation) → Disassembler → Disassembler
annotate address f d = record d {
  annotations = assign address (change f (d.annotations address)) d.annotations;
}

unfoldable pub push : ℕ → Disassembler → Disassembler
push address d = record d { worklist = address ∷ d.worklist }

unfoldable pub update_label : ℕ → Label → Disassembler → Disassembler
unfolding annotate
update_label address label d =
    annotate address (λ a. if is_some a.label then a else record a { label = some label }) d

-- One of the vectors of `decode_vectors`.
unfoldable pub decode_vector : String → ℕ → Disassembler → Disassembler
unfolding check check16 get16 annotate push
decode_vector label address d =
    let known = has_code_address (d.annotations address) in
    let destination = get16 address d in
    if not (check16 address d) || known || not (check destination d)
    then d
    else (let d1 =
          annotate address
            (λ a. record a {
              code_address = some destination;
              label = if address == 0xfff0 then some startup_vectors else a.label;
              decoded = true;
            })
            d in
        let d2 = annotate (address + 1) (λ a. record a { skip = true }) d1 in
        push destination (
          annotate destination
            (λ a. record a { instruction = some pending; label = some (vec label) }) d2))

abbrev pub vectors : List (String × ℕ)
vectors =
    ("start", 0xfffe)
    ∷ ("nmi", 0xfffc)
    ∷ ("swi", 0xfffa)
    ∷ ("irq", 0xfff8)
    ∷ ("timer_input_capture", 0xfff6)
    ∷ ("timer_output_compare", 0xfff4)
    ∷ ("timer_overflow", 0xfff2)
    ∷ ("sci", 0xfff0)
    ∷ []

unfoldable pub decode_each : List (String × ℕ) → Disassembler → Disassembler
unfolding decode_vector
decode_each [] d = d
decode_each ((label, address) ∷ rest) d = decode_each rest (decode_vector label address d)

unfoldable pub decode_vectors : Disassembler → Disassembler
unfolding decode_each
decode_vectors d = decode_each vectors d

-- The `count` bytes from `address` are set.
unfoldable pub all_set : ℕ → ℕ → Disassembler → Bool
unfolding check
all_set address zero d = true
all_set address (suc count) d = check address d && all_set (suc address) count d

unfoldable pub bytes_at : ℕ → ℕ → Disassembler → List ℕ
bytes_at address zero d = []
bytes_at address (suc count) d = d.memory address ∷ bytes_at (suc address) count d

-- The bytes after the first of an instruction.
unfoldable pub cover : ℕ → ℕ → Disassembler → Disassembler
cover address zero d = d
cover address (suc count) d = cover (suc address) count (record d {
  annotations = assign address (some (record blank { decoded = true; skip = true })) d.annotations;
})

-- An address where an instruction starts.
unfoldable pub expect_instruction : ℕ → Disassembler → Disassembler
unfolding annotate push
expect_instruction address d = elim (d.annotations address) [
  | none ↦ d
  | some a ↦
      if is_some a.instruction
      then d
      else push address (annotate address (λ b. record b { instruction = some pending }) d)
]

unfoldable pub name_is : String → Instruction → Bool
name_is name instruction = elim (compare instruction.name name) [
  | lt ↦ false
  | eq ↦ true
  | gt ↦ false
]

-- The operand of a branch is a signed byte. An indexed operand names no address that is known.
unfoldable pub destination_in : AddressingMode → ℕ → List ℕ → Option ℕ
destination_in rel address bytes =
    let offset = get_or bytes 1 0 in
    some (u16 (address + 2 + offset + (if leb 128 offset then 0xff00 else 0)))
destination_in dir address bytes = some (get_or bytes 1 0)
destination_in ext address bytes = some (bit_or (get_or bytes 1 0 <<< 8) (get_or bytes 2 0))
destination_in mode address bytes = none

-- Branches that are always taken, jumps and returns.
unfoldable pub ends_flow : Instruction → Bool
unfolding name_is
ends_flow instruction =
    name_is "bra" instruction
    || name_is "jmp" instruction
    || name_is "rts" instruction
    || name_is "rti" instruction

abbrev pub set_destination : ℕ → Option InstructionAnnotation → Option InstructionAnnotation
set_destination destination none = none
set_destination destination (some i) = some (record i { destination_address = some destination })

-- The address that the operand names, if the instruction moves the program counter.
unfoldable pub destination_of : ℕ → Instruction → List ℕ → Option ℕ
unfolding name_is destination_in
destination_of address instruction bytes =
    let moves = is_rel instruction.mode || name_is "jmp" instruction || name_is "jsr" instruction in
    if moves then destination_in instruction.mode address bytes else none

unfoldable pub follow_destination : ℕ → Option ℕ → Disassembler → Disassembler
unfolding check expect_instruction update_label annotate
follow_destination address none d = d
follow_destination address (some destination) d =
    if check destination d
    then annotate address
        (λ a. record a { instruction = set_destination destination a.instruction })
        (update_label destination (loc destination) (expect_instruction destination d))
    else d

unfoldable pub follow_next : ℕ → Instruction → Disassembler → Disassembler
unfolding check expect_instruction
follow_next next instruction d =
    if ends_flow instruction || not (check next d) then d else expect_instruction next d

-- A pending annotation is dropped.
unfoldable pub drop_instruction : ℕ → Disassembler → Disassembler
unfolding annotate
drop_instruction address d = annotate address (λ a. record a { instruction = none }) d

-- The bytes of the instruction are annotated, and the addresses that it leads to are pushed.
unfoldable pub follow : ℕ → Instruction → Disassembler → Disassembler
unfolding bytes_at annotate cover destination_of follow_destination follow_next
follow address instruction d =
    let bytes = bytes_at address instruction.bytes d in
    let d1 = annotate address (λ a. record a { value = bytes; decoded = true }) d in
    let d2 = cover (address + 1) (instruction.bytes - 1) d1 in
    let d3 = follow_destination address (destination_of address instruction bytes) d2 in
    follow_next (u16 (address + instruction.bytes)) instruction d3

unfoldable pub decode_instruction : ℕ → Disassembler → Disassembler
unfolding instructions6301 is_ill drop_instruction annotate all_set follow
decode_instruction address d =
    let instruction = instructions6301 (d.memory address) in
    let known : InstructionAnnotation = record {
      instruction = instruction;
      destination_address = none;
    } in
    let d1 = annotate address (λ a. record a { instruction = some known }) d in
    if is_ill instruction.mode
    then drop_instruction address d
    else (if leb memory_size (address + instruction.bytes - 1)
        then drop_instruction address d
        else (if all_set (address + 1) (instruction.bytes - 1) d1
            then follow address instruction d1
            else d1))

unfoldable pub set_instruction_boundary_hint : ℕ → Disassembler → Disassembler
unfolding annotate decode_instruction
set_instruction_boundary_hint address d =
    if has_instruction (d.annotations address)
    then d
    else decode_instruction address
        (annotate address (λ a. record a { instruction = some pending }) d)

-- A round of the loop of `disassemble`, on the annotation of the address that was popped.
unfoldable pub visit : Option Annotation → ℕ → Disassembler → Disassembler
unfolding decode_instruction annotate
visit none address d = d
visit (some a) address d =
    let d1 = if is_some a.instruction then decode_instruction address d else d in
    if a.decoded then d else annotate address (λ b. record b { decoded = true }) d1

unfoldable pub visit_next : ℕ → List ℕ → Disassembler → Disassembler
unfolding visit
visit_next address rest d = visit (d.annotations address) address (record d { worklist = rest })

-- The loop, for as many rounds as there is fuel.
unfoldable pub work : ℕ → List ℕ → Disassembler → Option Disassembler
unfolding visit_next
work fuel [] d = some d
work zero (address ∷ rest) d = none
work (suc fuel) (address ∷ rest) d =
    let next = visit_next address rest d in work fuel next.worklist next

unfoldable pub disassemble : ℕ → Disassembler → Option Disassembler
unfolding decode_vectors work
disassemble fuel d = let d1 = decode_vectors d in work fuel d1.worklist d1
