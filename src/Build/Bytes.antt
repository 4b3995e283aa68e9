-- ===== src/Build/Bytes.antt =====
-- build.rs, `gen_vm_program`: what it emits are bytes.
use hello_old.Base.{
  All-append, ℕ, zero, suc, ◌+◌, ◌*◌, arith, Bool, true, false, List, [], ◌∷◌, ◌++◌, ◌==◌,
  if◌then◌else◌, get_or, u8, xor-lt, All, IsByte,
}
use hello_old.Vm.View.{All-get_or}
use hello_old.Build.Rng.{Rng, choice, new, next_u8, gen_opaque_predicate}
use hello_old.Build.Program.{
  h1, noise, noise_op, half, halves, write_key, opaque_labels, gen_vm_program,
}

either-IsByte : (b : Bool) {x y : ℕ} → IsByte x → IsByte y → IsByte (if b then x else y)
either-IsByte true p q = p
either-IsByte false p q = q

noise_op-IsByte : (c : ℕ) → IsByte (noise_op c)
noise_op-IsByte c = either-IsByte (c == 0) (omega arith) (
    either-IsByte (c == 1) (omega arith) (
      either-IsByte (c == 2) (omega arith) (
        either-IsByte (c == 3) (omega arith) (either-IsByte (c == 4) (omega arith) (omega arith)))))

noise-IsByte : (depth : ℕ) (r : Rng) → All IsByte (noise depth r).0
unfolding noise next_u8
noise-IsByte zero r = tt
noise-IsByte (suc depth) r = (
  noise_op-IsByte (choice 6 r).0,
  (omega arith, (omega arith, noise-IsByte depth (next_u8 (choice 16 (choice 6 r).1).1).1)),
)

label-IsByte : (r : Rng) → IsByte (gen_opaque_predicate r).0
unfolding gen_opaque_predicate
label-IsByte r = either-IsByte ((choice 4 r).0 == 0) (omega arith) (
    either-IsByte ((choice 4 r).0 == 1) (omega arith)
      (either-IsByte ((choice 4 r).0 == 2) (omega arith) (omega arith)))

labels-IsByte : (n : ℕ) (r : Rng) → All IsByte (opaque_labels n r).0
unfolding opaque_labels
labels-IsByte zero r = tt
labels-IsByte (suc n) r = (label-IsByte r, labels-IsByte n (gen_opaque_predicate r).1)

write_key-IsByte :
    (t m : ℕ) (rest : List ℕ) → IsByte m → All IsByte rest → All IsByte (write_key (u8 t) m ++ rest)
write_key-IsByte t m rest small bytes = (
  omega arith,
  (omega arith, (omega arith, (small, (omega arith, (omega arith, (omega arith, bytes)))))),
)

module _ (km : List ℕ) (material : All IsByte km) where
  half-IsByte :
      (left : ℕ) (key : List ℕ) (base i : ℕ) (r : Rng)
      → All IsByte key
      → All IsByte (half km left key base i r).0
  unfolding half
  half-IsByte zero key base i r bytes = tt
  half-IsByte (suc left) key base i r bytes =
      let junk = noise ((choice 3 r).0 + 1) (choice 3 r).1 in
      All-append IsByte junk.0 _ (noise-IsByte ((choice 3 r).0 + 1) (choice 3 r).1) (
        write_key-IsByte (base + i) _ _
          (xor-lt 8 (get_or key i 0) (get_or km (base + i) 0)
            (All-get_or IsByte key i (omega arith) bytes)
            (All-get_or IsByte km (base + i) (omega arith) material))
          (half-IsByte left key base (i + 1) junk.1 bytes))

  halves-IsByte :
      (labels : List ℕ) (half_idx : ℕ) (keys : List (List ℕ)) (r : Rng)
      → All IsByte labels
      → All (All IsByte) keys
      → All IsByte (halves km labels half_idx keys r)
  unfolding halves
  halves-IsByte labels half_idx [] r ls bytes = (omega arith, tt)
  halves-IsByte labels half_idx (key ∷ keys) r ls (byte, bytes) =
      let code = half km h1 key (half_idx * h1) 0 r in
      All-append IsByte code.0 _ (half-IsByte h1 key (half_idx * h1) 0 r byte) (
        omega arith,
        (
          omega arith,
          (
            All-get_or IsByte labels (half_idx * 32) (omega arith) ls,
            halves-IsByte labels (half_idx + 1) keys code.1 ls bytes,
          ),
        ),
      )

pub gen_vm_program-IsByte :
    (k1 k2 km : List ℕ) (seed : ℕ)
    → All IsByte k1
    → All IsByte k2
    → All IsByte km
    → All IsByte (gen_vm_program k1 k2 km seed)
unfolding gen_vm_program
gen_vm_program-IsByte k1 k2 km seed b1 b2 bm =
    let labels = opaque_labels 64 (new seed) in
    halves-IsByte km bm labels.0 0 (k1 ∷ k2 ∷ []) labels.1 (labels-IsByte 64 (new seed))
      (b1, (b2, tt))
