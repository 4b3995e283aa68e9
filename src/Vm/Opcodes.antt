-- ===== src/Vm/Opcodes.antt =====
-- src/rustyvm.rs, the opcodes.
use hello_old.Base.{ℕ, Bool, ◌&&◌, ◌||◌, leb, ◌==◌}

abbrev pub op_push1 : ℕ
op_push1 = 0x01

abbrev pub op_push8 : ℕ
op_push8 = 0x02

abbrev pub op_pushkey : ℕ
op_pushkey = 0x03

abbrev pub op_dup : ℕ
op_dup = 0x04

abbrev pub op_swap : ℕ
op_swap = 0x05

abbrev pub op_drop : ℕ
op_drop = 0x06

abbrev pub op_xor : ℕ
op_xor = 0x07

abbrev pub op_add : ℕ
op_add = 0x08

abbrev pub op_sub : ℕ
op_sub = 0x09

abbrev pub op_and : ℕ
op_and = 0x0a

abbrev pub op_or : ℕ
op_or = 0x0b

abbrev pub op_not : ℕ
op_not = 0x0c

abbrev pub op_rotl : ℕ
op_rotl = 0x0d

abbrev pub op_rotr : ℕ
op_rotr = 0x0e

abbrev pub op_wrmem : ℕ
op_wrmem = 0x11

abbrev pub op_halt : ℕ
op_halt = 0x00

abbrev pub op_opaque_pred_base : ℕ
op_opaque_pred_base = 0xe0

abbrev pub op_opaque_pred_end : ℕ
op_opaque_pred_end = 0xe3

abbrev pub op_cf_obfuscate_base : ℕ
op_cf_obfuscate_base = 0xa0

abbrev pub op_cf_obfuscate_end : ℕ
op_cf_obfuscate_end = 0xa5

abbrev pub op_opaque_label : ℕ
op_opaque_label = 0xf0

-- The opaque predicates 0xE0 to 0xE3 and the control-flow noise 0xA0 to 0xA5.
abbrev pub is_ppred : ℕ → Bool
is_ppred op = leb op_opaque_pred_base op && leb op op_opaque_pred_end

abbrev pub is_cf : ℕ → Bool
is_cf op = leb op_cf_obfuscate_base op && leb op op_cf_obfuscate_end

-- `known`, in the order of the source.
abbrev pub known : ℕ → Bool
known op =
    op == op_push1
    || op == op_push8
    || op == op_pushkey
    || op == op_dup
    || op == op_swap
    || op == op_drop
    || op == op_xor
    || op == op_add
    || op == op_sub
    || op == op_and
    || op == op_or
    || op == op_not
    || op == op_rotl
    || op == op_rotr
    || op == op_wrmem
    || op == op_opaque_label
    || op == op_halt
    || is_ppred op
    || is_cf op
