-- ===== src/Vm/Run.antt =====
-- src/rustyvm.rs, the loop of `run`. `ip` grows in every iteration, so one more iteration than the
-- program has bytes is enough fuel.
use hello_old.Base.{
  ℕ, zero, suc, ◌+◌, true, false, List, ◌==◌, ltb, length, get_or, replicate, panic, value,
}
use hello_old.Vm.Opcodes.{op_halt}
use hello_old.Vm.Reference.{Exit, finished, panicked, no_fuel}
use hello_old.Vm.Machine.{Vm, advance, blocks, finish_step}

module _ (prog material : List ℕ) where
  unfoldable pub run_loop : ℕ → Vm → Exit
  run_loop zero s = no_fuel
  run_loop (suc fuel) s = elim (ltb s.ip (length prog)) [
    | false ↦ finished s.ok s.out
    | true ↦
        let op = get_or prog s.ip 0 in
        elim (blocks prog material op (advance 1 s)) [
          | panic ↦ panicked
          | value s' ↦ elim (op == op_halt) [
            | true ↦ finished s'.ok s'.out
            | false ↦ elim (finish_step prog material op s') [
              | panic ↦ panicked
              | value s'' ↦ run_loop fuel s''
            ]
          ]
        ]
  ]

abbrev pub start : List ℕ → Vm
start out = record { stack = replicate 16 0; sp = 0; ip = 0; ok = true; out = out }

unfoldable pub run : List ℕ → List ℕ → List ℕ → Exit
unfolding run_loop
run prog material out = run_loop prog material (length prog + 1) (start out)
