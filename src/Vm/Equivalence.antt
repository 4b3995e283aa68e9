-- ===== src/Vm/Equivalence.antt =====
-- src/rustyvm.rs, `run`: the masked machine computes the meaning of every program, and every run
-- ends.
use hello_old.Base.{
  ℕ, zero, suc, ◌+◌, ◌≡◌, refl, arith, List, ltb, length, get_or, All, IsByte, Bool-cases, inl, inr,
  ◌==◌,
}
use hello_old.Vm.Opcodes.{op_halt}
use hello_old.Vm.Machine.{Vm, advance}
use hello_old.Vm.Reference.{interpret, meaning}
use hello_old.Vm.View.{view, IsValid, Refines-cases}
use hello_old.Vm.Dispatch.{blocks-Refines, finish_step-Refines}
use hello_old.Vm.Refinement.{advance-IsValid}
use hello_old.Vm.Run.{run_loop, run, start}

module _ (prog material : List ℕ) (bytes : All IsByte prog) (keys : All IsByte material) where
  run_loop-interpret :
      (fuel : ℕ) (s : Vm)
      → IsValid s
      → run_loop prog material fuel s ≡ interpret prog material fuel (view s)
  unfolding run_loop interpret
  run_loop-interpret zero s ok = refl
  run_loop-interpret (suc fuel) s ok = elim (Bool-cases (ltb s.ip (length prog))) [
    | inr done ↦ rw (done, run_loop, interpret)
    | inl more ↦
        elim (Refines-cases (
          blocks-Refines prog material bytes keys (get_or prog s.ip 0) (advance 1 s)
            (advance-IsValid 1 s ok))) [
              | inl (p, q) ↦ rw (run_loop, interpret, more, p, q)
              | inr (s', p, q, ok') ↦ elim (Bool-cases (get_or prog s.ip 0 == op_halt)) [
                | inl halt ↦ rw (run_loop, interpret, more, p, q, halt)
                | inr on ↦
                    elim (Refines-cases
                      (finish_step-Refines prog material bytes keys (get_or prog s.ip 0) s' ok')) [
                        | inl (p', q') ↦ rw (run_loop, interpret, more, p, q, on, p', q')
                        | inr (s'', p', q', ok'') ↦
                            rw (run_loop, interpret, more, p, q, on, p', q')
                              (run_loop-interpret fuel s'' ok'')
                      ]
              ]
            ]
  ]

  module _ (out : List ℕ) (clean : All IsByte out) where
    pub start-IsValid : IsValid (start out)
    start-IsValid = record {
      slots = refl;
      within = omega arith;
      words = omega arith;
      bytes = clean;
    }

    -- On every program, key material and output of bytes, the constant-time machine with its
    -- masked selections and its 16 slots ends exactly as the reference meaning, which branches and
    -- keeps a list as its stack: it returns the same flag and the same output, or both panic.
    pub run-meaning : run prog material out ≡ meaning prog material out
    unfolding run meaning
    run-meaning = run_loop-interpret (length prog + 1) (start out) start-IsValid
