-- ===== src/Build/Tests.antt =====
-- Instances of the theorems about build.rs.
use hello_old.Base.{ℕ, ◌≡◌, refl, arith, true, List, ◌++◌, replicate}
use hello_old.Vm.Reference.{finished}
use hello_old.Vm.Run.{run}
use hello_old.Build.Program.{gen_vm_program}
use hello_old.Build.Roundtrip.{run-gen_vm_program}

abbrev key1 : List ℕ
key1 = replicate 32 0x5a

abbrev key2 : List ℕ
key2 = replicate 32 0xc3

abbrev material : List ℕ
material = replicate 64 0x99

run-gen_vm_program_example :
    run (gen_vm_program key1 key2 material 0xdead) material (replicate 64 0)
    ≡ finished true (key1 ++ key2)
run-gen_vm_program_example =
    run-gen_vm_program key1 key2 material (replicate 64 0) 0xdead refl refl refl refl (omega arith)
      (omega arith) (omega arith) (omega arith)
