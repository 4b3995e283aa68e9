-- ===== src/Vm/Reference.antt =====
-- What the instructions of src/rustyvm.rs mean, on a stack that is a list with its top first: no
-- masks, no stack pointer and no slots. A full stack holds 16 words.
use hello_old.Base.{
  ℕ, zero, suc, ◌+◌, ◌-◌, ◌*◌, ◌/◌, ◌%◌, ◌^◌, Bool, true, false, ◌&&◌, List, [], ◌∷◌, ltb, leb,
  ◌==◌, if◌then◌else◌, length, get_or, set, take, drop, Checked, panic, value, ◌>>=◌, from_le_bytes,
  bit_and, bit_or, bit_xor, u8, wrapping_add, wrapping_sub, complement,
}
use hello_old.Vm.Opcodes.{
  op_push1, op_push8, op_pushkey, op_dup, op_swap, op_drop, op_xor, op_add, op_sub, op_and, op_or,
  op_not, op_rotl, op_rotr, op_wrmem, op_halt, op_opaque_label, is_ppred, is_cf, known,
}

pub record StackVm : Type 0 where
  pub stack : List ℕ
  pub ip : ℕ
  pub ok : Bool
  pub out : List ℕ

abbrev pub flag : Bool → StackVm → StackVm
flag valid s = record s { ok = s.ok && valid }

abbrev pub fetch : List ℕ → StackVm → ℕ
fetch prog s = get_or prog s.ip 0

abbrev pub pass : ℕ → StackVm → StackVm
pass k s = record s { ip = s.ip + k }

-- A word is pushed, or dropped with the flag cleared; a full stack panics in both cases.
abbrev pub push_word : Bool → ℕ → StackVm → Checked StackVm
push_word valid v s =
    if ltb (length s.stack) 16
    then value (flag valid (record s { stack = if valid then v ∷ s.stack else s.stack }))
    else panic

abbrev pub on_two : (ℕ → ℕ → ℕ) → List ℕ → StackVm → Checked StackVm
on_two f [] s = panic
on_two f (a ∷ []) s = panic
on_two f (a ∷ b ∷ rest) s = value (flag true (record s { stack = f a b ∷ rest }))

abbrev pub on_top : Bool → (ℕ → ℕ) → List ℕ → StackVm → Checked StackVm
on_top valid f [] s = panic
on_top valid f (a ∷ rest) s =
    value (flag valid (record s { stack = (if valid then f a else a) ∷ rest }))

abbrev pub exchange : List ℕ → StackVm → Checked StackVm
exchange [] s = panic
exchange (a ∷ []) s = panic
exchange (a ∷ b ∷ rest) s = value (flag true (record s { stack = b ∷ a ∷ rest }))

abbrev pub duplicate : List ℕ → StackVm → Checked StackVm
duplicate [] s = panic
duplicate (a ∷ rest) s = push_word true a s

-- An empty stack only clears the flag here.
abbrev pub discard : List ℕ → StackVm → Checked StackVm
discard [] s = value (flag false s)
discard (a ∷ rest) s = value (flag true (record s { stack = rest }))

-- OP_ROTL and OP_ROTR turn the binary digits of a word by less than 64 places.
abbrev pub turn_left : ℕ → ℕ → ℕ
turn_left a n = bit_or (a * 2 ^ n % 2 ^ 64) (a / 2 ^ (64 - n))

abbrev pub turn_right : ℕ → ℕ → ℕ
turn_right a n = bit_or (a / 2 ^ n) (a * 2 ^ (64 - n) % 2 ^ 64)

abbrev pub top_or_zero : List ℕ → ℕ
top_or_zero [] = 0
top_or_zero (a ∷ rest) = a

abbrev pub is_filled : List ℕ → Bool
is_filled [] = false
is_filled (a ∷ rest) = true

abbrev pub rest_of : List ℕ → List ℕ
rest_of [] = []
rest_of (a ∷ rest) = rest

module _ (prog material : List ℕ) where
  abbrev pub take_byte : StackVm → Checked StackVm
  take_byte s = push_word (ltb s.ip (length prog)) (fetch prog s) (pass 1 s)

  abbrev pub take_word : StackVm → Checked StackVm
  take_word s =
      let valid = leb (s.ip + 8) (length prog) in
      push_word valid (if valid then from_le_bytes (take 8 (drop s.ip prog)) else 0) (pass 8 s)

  abbrev pub take_key : StackVm → Checked StackVm
  take_key s =
      let idx = fetch prog s in
      let valid = ltb s.ip (length prog) && ltb idx (length material) in
      push_word valid (get_or material idx 0) (pass 1 s)

  abbrev pub turn : (ℕ → ℕ → ℕ) → StackVm → Checked StackVm
  turn f s =
      on_top (ltb s.ip (length prog) && is_filled s.stack) (λ a. f a (bit_and (fetch prog s) 63))
        s.stack (pass 1 s)

  -- The top word's low byte goes to the output, where the operand and the index allow it.
  abbrev pub write_byte : StackVm → Checked StackVm
  write_byte s =
      let idx = fetch prog s in
      let valid = ltb s.ip (length prog) && is_filled s.stack && ltb idx (length s.out) in
      value (
        flag valid (record s {
          ip = s.ip + 1;
          out = if valid then set s.out idx (u8 (top_or_zero s.stack)) else s.out;
          stack = rest_of s.stack;
        }))

  abbrev pub ignore : ℕ → StackVm → Checked StackVm
  ignore k s = value (flag (leb (s.ip + k) (length prog)) (pass k s))

  -- One instruction by its opcode. An opcode that is in no line changes nothing here.
  unfoldable pub perform : ℕ → StackVm → Checked StackVm
  perform op s =
      if op == op_push1
      then take_byte s
      else if op == op_push8
      then take_word s
      else if op == op_pushkey
      then take_key s
      else if op == op_dup
      then duplicate s.stack s
      else if op == op_swap
      then exchange s.stack s
      else if op == op_drop
      then discard s.stack s
      else if op == op_xor
      then on_two (λ a b. bit_xor a b) s.stack s
      else if op == op_add
      then on_two (λ a b. wrapping_add a b) s.stack s
      else if op == op_sub
      then on_two (λ a b. wrapping_sub b a) s.stack s
      else if op == op_and
      then on_two (λ a b. bit_and a b) s.stack s
      else if op == op_or
      then on_two (λ a b. bit_or a b) s.stack s
      else if op == op_not
      then on_top true complement s.stack s
      else if op == op_rotl
      then turn turn_left s
      else if op == op_rotr
      then turn turn_right s
      else if op == op_wrmem
      then write_byte s
      else if op == op_opaque_label
      then ignore 2 s
      else value s

  -- What follows an instruction that is not OP_HALT: noise is passed over, and the flag goes down
  -- on an unknown opcode and on a full stack.
  unfoldable pub settle : ℕ → StackVm → Checked StackVm
  settle op s = do
    s ← (if is_ppred op then ignore 1 s else value s)
    s ← (if is_cf op then ignore 2 s else value s)
    value (flag (ltb (length s.stack) 16) (flag (known op) s))

-- How a run ends: it returns the flag and leaves the output, or it panics. `no_fuel` is the model's
-- own end.
pub data Exit : Type 0 where
  finished : Bool → List ℕ → Exit
  panicked : Exit
  no_fuel : Exit

module _ (prog material : List ℕ) where
  -- Instruction after instruction, until OP_HALT or the end of the program.
  unfoldable pub interpret : ℕ → StackVm → Exit
  interpret zero s = no_fuel
  interpret (suc fuel) s = elim (ltb s.ip (length prog)) [
    | false ↦ finished s.ok s.out
    | true ↦ elim (perform prog material (fetch prog s) (pass 1 s)) [
      | panic ↦ panicked
      | value s' ↦ elim (fetch prog s == op_halt) [
        | true ↦ finished s'.ok s'.out
        | false ↦ elim (settle prog material (fetch prog s) s') [
          | panic ↦ panicked
          | value s'' ↦ interpret fuel s''
        ]
      ]
    ]
  ]

abbrev pub empty : List ℕ → StackVm
empty out = record { stack = []; ip = 0; ok = true; out = out }

-- The meaning of a program, for the output bytes that it starts from.
unfoldable pub meaning : List ℕ → List ℕ → List ℕ → Exit
unfolding interpret perform settle
meaning prog material out = interpret prog material (length prog + 1) (empty out)
