-- ===== src/Vm/Typed.antt =====
-- src/rustyvm.rs, `run`: the types of what the machine works on. The source has u64 slots in an array of
-- 16, and u8 output; here they are an invariant.
use hello_old.Base.{
  ℕ, zero, suc, ◌+◌, ◌≡◌, subst, List, ltb, length, get_or, All, IsByte, Bool-cases, inl, inr, ◌⊎◌,
  ◌==◌, panic, value, Checked, Bool,
}
use hello_old.Vm.Opcodes.{op_halt}
use hello_old.Vm.Machine.{Vm, advance, blocks, finish_step}
use hello_old.Vm.Reference.{Exit, finished, panicked}
use hello_old.Vm.View.{IsValid, Refines-cases}
use hello_old.Vm.Dispatch.{blocks-Refines, finish_step-Refines}
use hello_old.Vm.Refinement.{advance-IsValid}
use hello_old.Vm.Equivalence.{start-IsValid}
use hello_old.Vm.Progress.{run-Ends}
use hello_old.Vm.Run.{run_loop, run, start}

-- A step panics, or it leaves a state with its types.
abbrev pub Steps : Checked Vm → Type 0
Steps m = (m ≡ panic) ⊎ ((s : Vm) × (m ≡ value s) × IsValid s)

-- An end is a panic or gives bytes.
abbrev pub GivesBytes : Exit → Type 0
GivesBytes r =
    (r ≡ panicked) ⊎ ((ok : Bool) × (out : List ℕ) × (r ≡ finished ok out) × All IsByte out)

module _ (prog material : List ℕ) (bytes : All IsByte prog) (keys : All IsByte material) where
  blocks-Steps : (op : ℕ) (s : Vm) → IsValid s → Steps (blocks prog material op s)
  blocks-Steps op s ok = elim (Refines-cases (blocks-Refines prog material bytes keys op s ok)) [
    | inl (p, q) ↦ inl p
    | inr (s', p, q, ok') ↦ inr (s', p, ok')
  ]

  finish_step-Steps : (op : ℕ) (s : Vm) → IsValid s → Steps (finish_step prog material op s)
  finish_step-Steps op s ok =
      elim (Refines-cases (finish_step-Refines prog material bytes keys op s ok)) [
        | inl (p, q) ↦ inl p
        | inr (s', p, q, ok') ↦ inr (s', p, ok')
      ]

  finished-out : (ok ok' : Bool) (a b : List ℕ) → finished ok a ≡ finished ok' b → a ≡ b
  finished-out ok ok' a b e = cc

  -- What the loop returns is bytes.
  run_loop-bytes :
      (fuel : ℕ) (s : Vm) (ok : Bool) (out : List ℕ)
      → IsValid s
      → run_loop prog material fuel s ≡ finished ok out
      → All IsByte out
  unfolding run_loop
  run_loop-bytes zero s ok out v e = cc
  run_loop-bytes (suc fuel) s ok out v e = elim (Bool-cases (ltb s.ip (length prog))) [
    | inr done ↦
        subst (All IsByte) (finished-out s.ok ok s.out out (rw (done, run_loop) at e)) v.bytes
    | inl more ↦
        let op = get_or prog s.ip 0 in
        elim (blocks-Steps op (advance 1 s) (advance-IsValid 1 s v)) [
          | inl p ↦ clash (rw (more, p, run_loop) at e)
          | inr (s', p, v') ↦ elim (Bool-cases (op == op_halt)) [
            | inl halt ↦
                subst (All IsByte)
                  (finished-out s'.ok ok s'.out out (rw (more, p, halt, run_loop) at e)) v'.bytes
            | inr on ↦ elim (finish_step-Steps op s' v') [
              | inl q ↦ clash (rw (more, p, on, q, run_loop) at e)
              | inr (s'', q, v'') ↦
                  run_loop-bytes fuel s'' ok out v'' (rw (more, p, on, q, run_loop) at e)
            ]
          ]
        ]
  ]
    where
      clash : panicked ≡ finished ok out → All IsByte out
      clash h = cc

  -- The machine keeps its types, on a program and key material of bytes. From a state with 16 slots of
  -- 64-bit words, a stack pointer of at most 16 and bytes as output, the block of every opcode and the
  -- end of a step leave such a state or panic; and a run on the output of such a state panics or
  -- returns bytes.
  pub run-Typed :
      (op : ℕ) (s : Vm)
      → IsValid s
      → Steps (blocks prog material op s)
        × Steps (finish_step prog material op s)
        × GivesBytes (run prog material s.out)
  unfolding run
  run-Typed op s v = (
    blocks-Steps op s v,
    finish_step-Steps op s v,
    elim (run-Ends prog material s.out bytes keys v.bytes) [
      | inl p ↦ inl p
      | inr (ok, out, e, size) ↦ inr (ok, out, e, ends ok out e)
    ],
  )
    where
      ends : (ok : Bool) (out : List ℕ) → run prog material s.out ≡ finished ok out → All IsByte out
      ends ok out e =
          run_loop-bytes (length prog + 1) (start s.out) ok out
            (start-IsValid prog material bytes keys s.out v.bytes) e
