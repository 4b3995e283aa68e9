-- ===== src/Build/Program.antt =====
-- build.rs, `gen_vm_program`: the program that rebuilds k1 and k2 from the key material. Each part
-- returns the bytes that it pushes and the generator. `instr_id` is counted and never read.
use hello_old.Base.{
  ℕ, zero, suc, ◌+◌, ◌*◌, List, [], ◌∷◌, ◌++◌, ◌==◌, if◌then◌else◌, bit_xor, u8, get_or,
}
use hello_old.Build.Rng.{Rng, new, next_u8, choice, gen_opaque_predicate}

-- KEY_LEN / 2.
abbrev pub h1 : ℕ
h1 = 32

abbrev pub noise_op : ℕ → ℕ
noise_op c =
    if c == 0
    then 0xa0
    else if c == 1
    then 0xa1
    else if c == 2
    then 0xa2
    else if c == 3
    then 0xa3
    else if c == 4
    then 0xa4
    else 0xa5

-- `for _ in 0..obfuscation_depth`.
unfoldable pub noise : ℕ → Rng → List ℕ × Rng
noise zero r = ([], r)
noise (suc depth) r =
    let (c, r₁) = choice 6 r in
    let (reg, r₂) = choice 16 r₁ in
    let (b, r₃) = next_u8 r₂ in
    let (rest, r₄) = noise depth r₃ in (noise_op c ∷ u8 reg ∷ b ∷ rest, r₄)

-- The seven bytes that write `key[i]` to the output.
abbrev pub write_key : ℕ → ℕ → List ℕ
write_key target mask = 0x03 ∷ target ∷ 0x01 ∷ mask ∷ 0x07 ∷ 0x11 ∷ target ∷ []

module _ (km : List ℕ) where
  -- `for i in 0..H1` with `left` rounds to go.
  unfoldable pub half : ℕ → List ℕ → ℕ → ℕ → Rng → List ℕ × Rng
  half zero key base i r = ([], r)
  half (suc left) key base i r =
      let mask = bit_xor (get_or key i 0) (get_or km (base + i) 0) in
      let target = u8 (base + i) in
      let (c, r₁) = choice 3 r in
      let (junk, r₂) = noise (c + 1) r₁ in
      let (rest, r₃) = half left key base (i + 1) r₂ in
      (junk ++ (write_key target mask ++ rest), r₃)

  -- `for (half_idx, key_half) in …`, and the final OP_HALT.
  unfoldable pub halves : List ℕ → ℕ → List (List ℕ) → Rng → List ℕ
  halves labels half_idx [] r = 0x00 ∷ []
  halves labels half_idx (key ∷ keys) r =
      let (code, r') = half h1 key (half_idx * h1) 0 r in
      code
      ++ (0xf0
          ∷ u8 half_idx
          ∷ get_or labels (half_idx * 32) 0
          ∷ halves labels (half_idx + 1) keys r')

-- `(0..64).map(…)`.
unfoldable pub opaque_labels : ℕ → Rng → List ℕ × Rng
opaque_labels zero r = ([], r)
opaque_labels (suc n) r =
    let (label, r₁) = gen_opaque_predicate r in
    let (rest, r₂) = opaque_labels n r₁ in (label ∷ rest, r₂)

unfoldable pub gen_vm_program : List ℕ → List ℕ → List ℕ → ℕ → List ℕ
unfolding halves half noise opaque_labels
gen_vm_program k1 k2 km seed =
    let (labels, r) = opaque_labels 64 (new seed) in halves km labels 0 (k1 ∷ k2 ∷ []) r
