-- ===== src/Vm/Tests.antt =====
-- Programs of src/rustyvm.rs that can be followed by hand, and instances of the theorems.
use hello_old.Base.{All, ℕ, ◌≡◌, refl, arith, true, false, List, [], ◌∷◌}
use hello_old.Vm.Select.{ct_select, ct_select_usize, ct_load}
use hello_old.Vm.Machine.{Vm, push, binary, write_from, push1, pushkey, wrmem, blocks, finish_step}
use hello_old.Vm.Reference.{finished, panicked, meaning}
use hello_old.Vm.Run.{start, run}
use hello_old.Vm.Equivalence.{start-IsValid, run-meaning}
use hello_old.Vm.Typed.{Steps, GivesBytes, run-Typed}
use hello_old.Vm.Underflow.{reads_first, run-panics}
use hello_old.Vm.Progress.{Ends, run-Ends}

-- PUSHKEY 1; PUSH1 5; XOR; WRMEM 0; HALT.
abbrev masked_byte : List ℕ
masked_byte = 0x03 ∷ 1 ∷ 0x01 ∷ 5 ∷ 0x07 ∷ 0x11 ∷ 0 ∷ 0x00 ∷ []

abbrev two_keys : List ℕ
two_keys = 7 ∷ 9 ∷ []

runs : run masked_byte two_keys (0 ∷ 0 ∷ []) ≡ finished true (12 ∷ 0 ∷ [])
unfolding run push binary write_from push1 pushkey wrmem blocks finish_step ct_select_usize ct_load
runs = refl

means : meaning masked_byte two_keys (0 ∷ 0 ∷ []) ≡ finished true (12 ∷ 0 ∷ [])
unfolding meaning
means = refl

-- DUP on an empty stack.
underflow : meaning (0x04 ∷ []) two_keys [] ≡ panicked
unfolding meaning
underflow = refl

-- An unknown opcode clears the flag and the run goes on.
unknown : meaning (0x77 ∷ 0x00 ∷ []) two_keys [] ≡ finished false []
unfolding meaning
unknown = refl

run-meaning_example :
    run masked_byte two_keys (0 ∷ 0 ∷ []) ≡ meaning masked_byte two_keys (0 ∷ 0 ∷ [])
run-meaning_example =
    run-meaning masked_byte two_keys (omega arith) (omega arith) (0 ∷ 0 ∷ []) (omega arith)

run-Ends_example : Ends (0 ∷ 0 ∷ []) (run masked_byte two_keys (0 ∷ 0 ∷ []))
run-Ends_example =
    run-Ends masked_byte two_keys (0 ∷ 0 ∷ []) (omega arith) (omega arith) (omega arith)

selects : ct_select true 3 4 ≡ 3
unfolding ct_select
selects = refl

run-panics_example : All (λ op. run (op ∷ 0x00 ∷ []) two_keys (0 ∷ []) ≡ panicked) reads_first
run-panics_example =
    run-panics (0x00 ∷ []) two_keys (0 ∷ []) (omega arith) (omega arith) (omega arith)

abbrev begun : Vm
begun = start (0 ∷ 0 ∷ [])

run-Typed_example :
    Steps (blocks masked_byte two_keys 0x11 begun)
    × Steps (finish_step masked_byte two_keys 0x11 begun)
    × GivesBytes (run masked_byte two_keys (0 ∷ 0 ∷ []))
run-Typed_example =
    run-Typed masked_byte two_keys (omega arith) (omega arith) 0x11 begun
      (start-IsValid masked_byte two_keys (omega arith) (omega arith) (0 ∷ 0 ∷ []) (omega arith))
