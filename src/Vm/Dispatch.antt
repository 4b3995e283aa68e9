-- ===== src/Vm/Dispatch.antt =====
-- One iteration of `run` of src/rustyvm.rs against one instruction of Vm.Reference.
use native.Mathlib.Nat.{mod-lt}
use hello_old.Base.{
  ℕ, zero, suc, ◌+◌, ◌-◌, ◌^◌, ◌≡◌, refl, arith, Bool, true, false, List, ltb, lt→ltb,
  if◌then◌else◌, All, IsByte, Checked, panic, value, ◌>>=◌, Bool-cases, inl, inr, ==_iff,
  wrapping_sub, wrapping_add, complement, bit_and, bit_xor, bit_or, ◌==◌, xor-lt, and-lt, or-lt,
}
use hello_old.Vm.Opcodes.{
  op_push1, op_push8, op_pushkey, op_dup, op_swap, op_drop, op_xor, op_add, op_sub, op_and, op_or,
  op_not, op_rotl, op_rotr, op_wrmem, op_opaque_label, is_ppred, is_cf, known,
}
use hello_old.Vm.Machine.{Vm, note, block, blocks, finish_step, unary, skip}
use hello_old.Vm.Reference.{StackVm, on_top, perform, settle, ignore}
use hello_old.Vm.View.{
  top_first, view, IsValid, Refines, both_value, Refines-bind, length-top_first,
}
use hello_old.Vm.Slots.{binary-Refines, unary-Refines}
use hello_old.Vm.Refinement.{
  note-Refines, note-IsValid, push1-Refines, push8-Refines, pushkey-Refines, dup-Refines,
  drop-Refines, skip-Refines, rotate_left-Refines, rotate_right-Refines,
}
use hello_old.Vm.Refinement.Swap.{swap-Refines}
use hello_old.Vm.Refinement.Wrmem.{wrmem-Refines}

bind-value : (m : Checked Vm) → (m >>= λ s. value s) ≡ m
bind-value panic = refl
bind-value (value s) = refl

then-value : {m : Checked Vm} {n : Checked StackVm} → Refines m n → Refines (m >>= λ s. value s) n
then-value {m} r = rw (bind-value m) r

on_top-filled :
    (f : ℕ → ℕ) (n : ℕ) (slots : List ℕ) (s : StackVm)
    → on_top (ltb 0 n) f (top_first n slots) s ≡ on_top true f (top_first n slots) s
on_top-filled f zero slots s = refl
on_top-filled f (suc n) slots s = rw (lt→ltb 0 (suc n) (omega arith))

not-Refines :
    (s : Vm)
    → IsValid s
    → Refines (unary (ltb 0 s.sp) complement s) (on_top true complement (view s).stack (view s))
not-Refines s ok =
    rw (← on_top-filled complement s.sp s.stack (view s))
      (unary-Refines (ltb 0 s.sp) complement s ok (λ a h. omega arith))

module _ (prog material : List ℕ) (bytes : All IsByte prog) (keys : All IsByte material) where
  abbrev Agree : ℕ → Type 0
  Agree op =
      (s : Vm) → IsValid s → Refines (blocks prog material op s) (perform prog material op (view s))

  at_push1 : Agree op_push1
  unfolding blocks perform
  at_push1 s ok = then-value (push1-Refines prog material bytes keys s ok)

  at_push8 : Agree op_push8
  unfolding blocks perform
  at_push8 s ok = then-value (push8-Refines prog material bytes keys s ok)

  at_pushkey : Agree op_pushkey
  unfolding blocks perform
  at_pushkey s ok = then-value (pushkey-Refines prog material bytes keys s ok)

  at_dup : Agree op_dup
  unfolding blocks perform
  at_dup s ok = then-value (dup-Refines prog material bytes keys s ok)

  at_swap : Agree op_swap
  unfolding blocks perform
  at_swap s ok = then-value (swap-Refines prog material s ok)

  at_drop : Agree op_drop
  unfolding blocks perform
  at_drop s ok = then-value (drop-Refines prog material bytes keys s ok)

  at_xor : Agree op_xor
  unfolding blocks perform
  at_xor s ok = then-value (binary-Refines (λ a b. bit_xor a b) s ok (xor-lt 64))

  at_add : Agree op_add
  unfolding blocks perform
  at_add s ok =
      then-value
        (binary-Refines (λ a b. wrapping_add a b) s ok (λ a b ha hb. mod-lt (a + b) (omega arith)))

  at_sub : Agree op_sub
  unfolding blocks perform
  at_sub s ok = then-value (
      binary-Refines (λ a b. wrapping_sub b a) s ok
        (λ a b ha hb. mod-lt (b + 2 ^ 64 - a) (omega arith)))

  at_and : Agree op_and
  unfolding blocks perform
  at_and s ok = then-value (binary-Refines (λ a b. bit_and a b) s ok (and-lt 64))

  at_or : Agree op_or
  unfolding blocks perform
  at_or s ok = then-value (binary-Refines (λ a b. bit_or a b) s ok (or-lt 64))

  at_not : Agree op_not
  unfolding blocks perform
  at_not s ok = then-value (not-Refines s ok)

  at_rotl : Agree op_rotl
  unfolding blocks perform
  at_rotl s ok = then-value (rotate_left-Refines prog material bytes keys s ok)

  at_rotr : Agree op_rotr
  unfolding blocks perform
  at_rotr s ok = then-value (rotate_right-Refines prog material bytes keys s ok)

  at_wrmem : Agree op_wrmem
  unfolding blocks perform
  at_wrmem s ok = then-value (wrmem-Refines prog material s ok)

  at_opaque_label : Agree op_opaque_label
  unfolding blocks perform
  at_opaque_label s ok = skip-Refines prog material bytes keys 2 s ok

  -- An opcode that is in no block leaves the state alone.
  at_none :
      (op : ℕ)
      → (op == op_push1) ≡ false
      → (op == op_push8) ≡ false
      → (op == op_pushkey) ≡ false
      → (op == op_dup) ≡ false
      → (op == op_swap) ≡ false
      → (op == op_drop) ≡ false
      → (op == op_xor) ≡ false
      → (op == op_add) ≡ false
      → (op == op_sub) ≡ false
      → (op == op_and) ≡ false
      → (op == op_or) ≡ false
      → (op == op_not) ≡ false
      → (op == op_rotl) ≡ false
      → (op == op_rotr) ≡ false
      → (op == op_wrmem) ≡ false
      → (op == op_opaque_label) ≡ false
      → Agree op
  unfolding blocks perform
  at_none op n0 n1 n2 n3 n4 n5 n6 n7 n8 n9 n10 n11 n12 n13 n14 n15 s ok =
      rw (n0, n1, n2, n3, n4, n5, n6, n7, n8, n9, n10, n11, n12, n13, n14, n15) (both_value s ok)

  -- An opcode is decided against one constant, and carried over to it where it is that one.
  either_op : (op c : ℕ) → Agree c → ((op == c) ≡ false → Agree op) → Agree op
  either_op op c at other s ok = elim (Bool-cases (op == c)) [
    | inl e ↦ rw ((==_iff op c).0 e) (at s ok)
    | inr e ↦ other e s ok
  ]

  -- Every instruction does to the slots what it does to the stack.
  pub blocks-Refines : (op : ℕ) → Agree op
  blocks-Refines op = either_op op op_push1 at_push1 λ n0. either_op op op_push8 at_push8 λ n1.
      either_op op op_pushkey at_pushkey λ n2. either_op op op_dup at_dup λ n3.
        either_op op op_swap at_swap λ n4. either_op op op_drop at_drop λ n5.
          either_op op op_xor at_xor λ n6. either_op op op_add at_add λ n7.
            either_op op op_sub at_sub λ n8. either_op op op_and at_and λ n9.
              either_op op op_or at_or λ n10. either_op op op_not at_not λ n11.
                either_op op op_rotl at_rotl λ n12. either_op op op_rotr at_rotr λ n13.
                  either_op op op_wrmem at_wrmem λ n14.
                    either_op op op_opaque_label at_opaque_label
                      λ n15. at_none op n0 n1 n2 n3 n4 n5 n6 n7 n8 n9 n10 n11 n12 n13 n14 n15

  skip-if :
      (b : Bool) (k : ℕ) (s : Vm)
      → IsValid s
      → Refines
          (block prog material b (skip prog material k) s)
          (if b then ignore prog material k (view s) else value (view s))
  skip-if true k s ok = skip-Refines prog material bytes keys k s ok
  skip-if false k s ok = both_value s ok

  pub finish_step-Refines :
      (op : ℕ) (s : Vm)
      → IsValid s
      → Refines (finish_step prog material op s) (settle prog material op (view s))
  unfolding finish_step settle
  finish_step-Refines op s ok = Refines-bind _ _ (skip-if (is_ppred op) 1 s ok) λ s₁ ok₁.
      Refines-bind _ _ (skip-if (is_cf op) 2 s₁ ok₁) λ s₂ ok₂.
        rw (length-top_first s₂.sp s₂.stack)
          (note-Refines _ (note (known op) s₂) (note-IsValid (known op) s₂ ok₂))
