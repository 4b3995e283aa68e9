-- ===== src/Vm/Machine.antt =====
-- src/rustyvm.rs, the body of `run`: the machine's state and one iteration of its loop. A block
-- `if is_x == 1 { … }` of the source is a function on the state that `block` guards. An index
-- outside the 16 stack slots panics, `sp.wrapping_sub(1)` at 0 included. `ip` cannot wrap: it is at
-- most eight past the length of a slice.
use hello_old.Base.{
  ℕ, ◌+◌, ◌*◌, ◌/◌, ◌-◌, ◌%◌, ◌^◌, Bool, true, false, ◌&&◌, List, [], ◌∷◌, ◌==◌, ltb, leb,
  if◌then◌else◌, length, get_elem?, get_or, set, take, drop, Checked, panic, value, checked, ◌>>=◌,
  u8, wrapping_add, wrapping_sub, wrapping_neg, complement, of_bool, from_le_bytes, bit_and, bit_or,
  bit_xor,
}
use hello_old.Vm.Select.{ct_select, ct_select_usize, ct_load}
use hello_old.Vm.Opcodes.{
  op_push1, op_push8, op_pushkey, op_dup, op_swap, op_drop, op_xor, op_add, op_sub, op_and, op_or,
  op_not, op_rotl, op_rotr, op_wrmem, op_opaque_label, is_ppred, is_cf, known,
}

-- The local variables of `run`. The stack has 16 slots; `sp` of them are in use.
pub record Vm : Type 0 where
  pub stack : List ℕ
  pub sp : ℕ
  pub ip : ℕ
  pub ok : Bool
  pub out : List ℕ

-- `stack[i]` and `stack[i] = v`.
abbrev pub load : Vm → ℕ → Checked ℕ
load s i = checked (get_elem? s.stack i)

abbrev pub store : Vm → ℕ → ℕ → Checked Vm
store s i v = if ltb i (length s.stack) then value (record s { stack = set s.stack i v }) else panic

abbrev pub below_top : Vm → ℕ → ℕ
below_top s k = wrapping_sub s.sp k

-- `ok &= valid`.
abbrev pub note : Bool → Vm → Vm
note valid s = record s { ok = s.ok && valid }

-- `ip += k`.
abbrev pub advance : ℕ → Vm → Vm
advance k s = record s { ip = s.ip + k }

-- `if ip < prog.len() { prog[ip] } else { 0 }`.
abbrev pub operand : List ℕ → Vm → ℕ
operand prog s = get_or prog s.ip 0

-- The three lines that end each of the pushing blocks.
unfoldable pub push : Bool → ℕ → Vm → Checked Vm
push valid val s = do
  old ← load s s.sp
  s' ← store s s.sp (ct_select valid val old)
  value (note valid (record s' { sp = ct_select_usize valid (wrapping_add s'.sp 1) s'.sp }))

-- The body of the blocks for two operands, of which `a` is the upper one.
unfoldable pub binary : (ℕ → ℕ → ℕ) → Vm → Checked Vm
binary f s = do
  let valid = leb 2 s.sp
  a ← load s (below_top s 1)
  b ← load s (below_top s 2)
  top ← load s (below_top s 1)
  let res = ct_select valid (f a b) top
  let s₁ = record s { sp = ct_select_usize valid (below_top s 1) s.sp }
  s₂ ← store s₁ (below_top s₁ 1) res
  value (note valid s₂)

-- The body of the blocks for one operand.
unfoldable pub unary : Bool → (ℕ → ℕ) → Vm → Checked Vm
unary valid f s = do
  a ← load s (below_top s 1)
  s' ← store s (below_top s 1) (ct_select valid (f a) a)
  value (note valid s')

-- `rotate_left` and `rotate_right` of a `u64` by less than 64.
abbrev pub rotate_left : ℕ → ℕ → ℕ
rotate_left a n = bit_or (a * 2 ^ n % 2 ^ 64) (a / 2 ^ (64 - n))

abbrev pub rotate_right : ℕ → ℕ → ℕ
rotate_right a n = bit_or (a / 2 ^ n) (a * 2 ^ (64 - n) % 2 ^ 64)

-- The loop of OP_WRMEM from index `i` on.
unfoldable pub write_from : ℕ → ℕ → Bool → ℕ → List ℕ → List ℕ
write_from i idx valid val [] = []
write_from i idx valid val (byte ∷ out) =
    let eq = of_bool (bit_xor i idx == 0) in
    let mask = bit_and (wrapping_neg eq) (wrapping_neg (of_bool valid)) in
    bit_xor byte (bit_and (bit_xor (u8 val) byte) (u8 mask)) ∷ write_from (i + 1) idx valid val out

module _ (prog material : List ℕ) where
  unfoldable pub push1 : Vm → Checked Vm
  push1 s = push (ltb s.ip (length prog)) (operand prog s) (advance 1 s)

  unfoldable pub push8 : Vm → Checked Vm
  push8 s =
      let valid = leb (s.ip + 8) (length prog) in
      push valid (if valid then from_le_bytes (take 8 (drop s.ip prog)) else 0) (advance 8 s)

  unfoldable pub pushkey : Vm → Checked Vm
  pushkey s =
      let idx = operand prog s in
      let valid = ltb s.ip (length prog) && ltb idx (length material) in
      push valid (ct_load material idx) (advance 1 s)

  unfoldable pub dup : Vm → Checked Vm
  dup s = do val ← load s (below_top s 1); push (ltb 0 s.sp) val s

  unfoldable pub swap : Vm → Checked Vm
  swap s = do
    let valid = leb 2 s.sp
    a ← load s (below_top s 1)
    b ← load s (below_top s 2)
    s₁ ← store s (below_top s 1) (ct_select valid b a)
    s₂ ← store s₁ (below_top s₁ 2) (ct_select valid a b)
    value (note valid s₂)

  unfoldable pub drop_top : Vm → Checked Vm
  drop_top s =
      let valid = ltb 0 s.sp in
      value (note valid (record s { sp = ct_select_usize valid (below_top s 1) s.sp }))

  unfoldable pub rotate : (ℕ → ℕ → ℕ) → Vm → Checked Vm
  rotate turn s =
      let valid = ltb s.ip (length prog) && ltb 0 s.sp in
      let n = bit_and (operand prog s) 63 in unary valid (λ a. turn a n) (advance 1 s)

  unfoldable pub wrmem : Vm → Checked Vm
  wrmem s = do
    let valid_idx = ltb s.ip (length prog)
    let idx = operand prog s
    let valid_sp = ltb 0 s.sp
    val ← (if valid_sp then load s (below_top s 1) else value 0)
    let valid = valid_idx && valid_sp && ltb idx (length s.out)
    value (
        note valid (record s {
          ip = s.ip + 1;
          out = write_from 0 idx valid val s.out;
          sp = ct_select_usize valid_sp (below_top s 1) s.sp;
        }))

  -- OP_OPAQUE_LABEL, the opaque predicates and the control-flow noise: `k` bytes are passed over.
  unfoldable pub skip : ℕ → Vm → Checked Vm
  skip k s = value (note (leb (s.ip + k) (length prog)) (advance k s))

  abbrev pub block : Bool → (Vm → Checked Vm) → Vm → Checked Vm
  block true f s = f s
  block false f s = value s

  -- The blocks up to the `break` of OP_HALT; the opcode has been read and passed.
  unfoldable pub blocks : ℕ → Vm → Checked Vm
  blocks op s = do
    s ← block (op == op_push1) push1 s
    s ← block (op == op_push8) push8 s
    s ← block (op == op_pushkey) pushkey s
    s ← block (op == op_dup) dup s
    s ← block (op == op_swap) swap s
    s ← block (op == op_drop) drop_top s
    s ← block (op == op_xor) (binary (λ a b. bit_xor a b)) s
    s ← block (op == op_add) (binary (λ a b. wrapping_add a b)) s
    s ← block (op == op_sub) (binary (λ a b. wrapping_sub b a)) s
    s ← block (op == op_and) (binary (λ a b. bit_and a b)) s
    s ← block (op == op_or) (binary (λ a b. bit_or a b)) s
    s ← block (op == op_not) (λ s. unary (ltb 0 s.sp) complement s) s
    s ← block (op == op_rotl) (rotate rotate_left) s
    s ← block (op == op_rotr) (rotate rotate_right) s
    s ← block (op == op_wrmem) wrmem s
    block (op == op_opaque_label) (skip 2) s

  -- The rest of an iteration that does not break.
  unfoldable pub finish_step : ℕ → Vm → Checked Vm
  finish_step op s = do
    s ← block (is_ppred op) (skip 1) s
    s ← block (is_cf op) (skip 2) s
    value (note (ltb s.sp 16) (note (known op) s))
