-- ===== src/Build/Roundtrip.antt =====
-- build.rs, `gen_vm_program`, then src/rustyvm.rs, `run`: the keys come back.
use hello_old.Base.{
  ℕ, ◌+◌, ◌*◌, ◌≤◌, ◌≡◌, refl, ap, sym, ◌∙◌, arith, true, List, [], ◌∷◌, ◌++◌, length, get_or, drop,
  take, length-take, length-drop, take-append-drop, All, IsByte,
}
use mathlib.Core.List.{append-nil}
use hello_old.Vm.Reference.{finished, meaning}
use hello_old.Vm.Reaches.{Reaches, Reaches-trans, drop-after, interpret_halt}
use hello_old.Vm.Equivalence.{run-meaning}
use hello_old.Vm.Run.{run}
use hello_old.Build.Rng.{Rng, new}
use hello_old.Build.Program.{h1, half, halves, opaque_labels, gen_vm_program}
use hello_old.Build.Steps.{state, label_step}
use hello_old.Build.Recover.{half_steps, write_all, length-write_all, write_all-append}
use hello_old.Build.Bytes.{gen_vm_program-IsByte}

-- One half and its label.
half_and_label :
    (prog km key : List ℕ) (half_idx ip : ℕ) (r : Rng) (x y : ℕ) (rest out : List ℕ)
    → length key ≡ h1
    → All IsByte key
    → half_idx * h1 + h1 ≤ length km
    → length km ≤ 256
    → length out ≡ length km
    → drop ip prog ≡ (half km h1 key (half_idx * h1) 0 r).0 ++ (0xf0 ∷ x ∷ y ∷ rest)
    → (j : ℕ) × (drop j prog ≡ rest)
      × Reaches prog km (state ip [] out) (state j [] (write_all (half_idx * h1) key out))
half_and_label prog km key half_idx ip r x y rest out size bytes fits few same e =
    let code = (half km h1 key (half_idx * h1) 0 r).0 in
    let i₁ = ip + length code in
    let at₁ = drop-after prog code _ ip i₁ e refl in
    let base : half_idx * h1 + 0 ≡ half_idx * h1 = omega arith in
    let first =
      rw (size, base) at
        (half_steps prog km key key (half_idx * h1) 0 r ip (0xf0 ∷ x ∷ y ∷ rest) out refl bytes
          (omega (arith, size)) few same (rw size e)) in
    (
      i₁ + 1 + 2,
      drop-after prog (0xf0 ∷ x ∷ y ∷ []) rest i₁ (i₁ + 1 + 2) at₁ (omega arith),
      Reaches-trans prog km (state ip [] out) (state i₁ [] (write_all (half_idx * h1) key out)) _
          first (label_step prog km i₁ x y rest (write_all (half_idx * h1) key out) at₁),
    )

-- Writing both halves fills an output of 64 bytes.
write_halves :
    (k1 k2 out : List ℕ)
    → length k1 ≡ 32
    → length k2 ≡ 32
    → length out ≡ 64
    → write_all 32 k2 (write_all 0 k1 out) ≡ k1 ++ k2
write_halves k1 k2 out s1 s2 size =
    let old = take 32 out in
    let back = drop 32 out in
    let o1 : length old ≡ length k1 = omega (arith, length-take 32 out) in
    let o2 : length back ≡ length k2 = omega (arith, length-drop 32 out) in
    let first : write_all 0 k1 out ≡ k1 ++ back =
      ap (write_all 0 k1) (sym (take-append-drop 32 out))
      ∙ write_all-append k1 [] old back 0 refl o1 in
    let tail : back ≡ back ++ [] = sym (append-nil back) in
    let second : write_all 32 k2 (k1 ++ (back ++ [])) ≡ k1 ++ (k2 ++ []) =
      write_all-append k2 k1 back [] 32 (sym s1) o2 in
    ap (write_all 32 k2) (first ∙ ap (λ t. k1 ++ t) tail)
    ∙ second
    ∙ ap (λ t. k1 ++ t) (append-nil k2)

module _ (k1 k2 km out : List ℕ) (s1 : length k1 ≡ 32) (s2 : length k2 ≡ 32) (sm : length km ≡ 64)
    (so : length out ≡ 64) (b1 : All IsByte k1) (b2 : All IsByte k2) where
  meaning-program :
      (seed : ℕ) → meaning (gen_vm_program k1 k2 km seed) km out ≡ finished true (k1 ++ k2)
  unfolding meaning gen_vm_program halves
  meaning-program seed =
      let prog = gen_vm_program k1 k2 km seed in
      let labels = opaque_labels 64 (new seed) in
      let (i₁, at₁, first) =
        half_and_label prog km k1 0 0 labels.1 0 (get_or labels.0 0 0) _ out s1 b1
          (omega (arith, sm)) (omega (arith, sm)) (so ∙ sym sm) refl in
      let r₁ = (half km h1 k1 0 0 labels.1).1 in
      let mid = write_all 0 k1 out in
      let (i₂, at₂, second) =
        half_and_label prog km k2 1 i₁ r₁ 1 (get_or labels.0 32 0) _ mid s2 b2 (omega (arith, sm))
          (omega (arith, sm)) (length-write_all k1 0 out ∙ so ∙ sym sm) at₁ in
      interpret_halt prog km [] (state 0 [] out) (state i₂ [] (write_all 32 k2 mid))
        (length prog + 1) (Reaches-trans prog km (state 0 [] out) (state i₁ [] mid) _ first second)
        at₂ (omega arith)
      ∙ ap (finished true) (write_halves k1 k2 out s1 s2 so)

-- The program that the build emits for the halves k1 and k2 of the key, whatever its seed chooses
-- for noise and labels, makes the machine return success and write k1 followed by k2 to a 64-byte
-- output, given the same 64 bytes of key material.
pub run-gen_vm_program :
    (k1 k2 km out : List ℕ) (seed : ℕ)
    → length k1 ≡ 32
    → length k2 ≡ 32
    → length km ≡ 64
    → length out ≡ 64
    → All IsByte k1
    → All IsByte k2
    → All IsByte km
    → All IsByte out
    → run (gen_vm_program k1 k2 km seed) km out ≡ finished true (k1 ++ k2)
run-gen_vm_program k1 k2 km out seed s1 s2 sm so b1 b2 bm bo =
    run-meaning (gen_vm_program k1 k2 km seed) km (gen_vm_program-IsByte k1 k2 km seed b1 b2 bm) bm
      out bo
    ∙ meaning-program k1 k2 km out s1 s2 sm so b1 b2 seed
