-- ===== src/Vm/Underflow.antt =====
-- src/rustyvm.rs: instructions whose operands are not on the stack.
use hello_old.Base.{
  ℕ, suc, ◌+◌, ◌≡◌, refl, ◌∙◌, arith, true, List, [], ◌∷◌, ltb, lt→ltb, length, All, IsByte, panic,
}
use hello_old.Vm.Opcodes.{
  op_dup, op_swap, op_xor, op_add, op_sub, op_and, op_or, op_not, op_rotl, op_rotr,
}
use hello_old.Vm.Reference.{panicked, meaning, interpret, perform, pass, empty}
use hello_old.Vm.Run.{run}
use hello_old.Vm.Equivalence.{run-meaning}

-- The instructions that read the stack before they look at its size.
abbrev pub reads_first : List ℕ
reads_first =
    op_dup ∷ op_swap ∷ op_xor ∷ op_add ∷ op_sub ∷ op_and ∷ op_or ∷ op_not ∷ op_rotl ∷ op_rotr ∷ []

module _ (rest material out : List ℕ) where
  panics_at :
      (op : ℕ)
      → perform (op ∷ rest) material op (pass 1 (empty out)) ≡ panic
      → meaning (op ∷ rest) material out ≡ panicked
  unfolding meaning interpret
  panics_at op e =
      let fuel : suc (length rest) + 1 ≡ suc (length rest + 1) = omega arith in
      let inside : ltb 0 (suc (length rest)) ≡ true = lt→ltb 0 (suc (length rest)) (omega arith) in
      rw (fuel, interpret, inside, e) refl

  meaning-panics : All (λ op. meaning (op ∷ rest) material out ≡ panicked) reads_first
  unfolding perform
  meaning-panics = (
    panics_at op_dup refl,
    (
      panics_at op_swap refl,
      (
        panics_at op_xor refl,
        (
          panics_at op_add refl,
          (
            panics_at op_sub refl,
            (
              panics_at op_and refl,
              (
                panics_at op_or refl,
                (panics_at op_not refl, (panics_at op_rotl refl, (panics_at op_rotr refl, tt))),
              ),
            ),
          ),
        ),
      ),
    ),
  )

transfer :
    (P Q : ℕ → Type 0) (ops : List ℕ)
    → ((op : ℕ) → IsByte op → P op → Q op)
    → All IsByte ops
    → All P ops
    → All Q ops
transfer P Q [] f b h = tt
transfer P Q (op ∷ ops) f b h = (f op b.0 h.0, transfer P Q ops f b.1 h.1)

-- A program of bytes that starts with DUP, SWAP, an operation on two words, NOT or a rotation panics
-- on any key material and output of bytes.
pub run-panics :
    (rest material out : List ℕ)
    → All IsByte rest
    → All IsByte material
    → All IsByte out
    → All (λ op. run (op ∷ rest) material out ≡ panicked) reads_first
run-panics rest material out br bm bo =
    transfer (λ op. meaning (op ∷ rest) material out ≡ panicked)
      (λ op. run (op ∷ rest) material out ≡ panicked) reads_first
      (λ op b h. run-meaning (op ∷ rest) material (b, br) bm out bo ∙ h) (omega arith)
      (meaning-panics rest material out)
