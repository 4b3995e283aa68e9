-- ===== src/Build/Rng.antt =====
-- build.rs, `Rng`: the SplitMix64 generator of the build, and `gen_opaque_predicate`. The record of
-- the source has one field, the state.
use hello_old.Base.{
  ℕ, zero, suc, ◌-◌, ◌/◌, ◌%◌, ◌^◌, true, false, List, [], ◌++◌, ◌==◌, min, if◌then◌else◌, bit_xor,
  wrapping_add, wrapping_mul, u8, take, to_le_bytes,
}

abbrev pub Rng : Type 0
Rng = ℕ

abbrev golden : ℕ
golden = 0x9e3779b97f4a7c15

unfoldable pub new : ℕ → Rng
new seed = wrapping_mul seed golden

-- The state moves on by a constant and is mixed into the value.
unfoldable pub next_u64 : Rng → ℕ × Rng
next_u64 r =
    let r' = wrapping_add r golden in
    let z = wrapping_mul (bit_xor r' (r' / 2 ^ 30)) 0xbf58476d1ce4e5b9 in
    let z' = wrapping_mul (bit_xor z (z / 2 ^ 27)) 0x94d049bb133111eb in
    (bit_xor z' (z' / 2 ^ 31), r')

-- The loop of `fill` with `left` bytes to go; each round fills at least one.
unfoldable pub fill_loop : ℕ → ℕ → Rng → List ℕ × Rng
fill_loop zero left r = ([], r)
fill_loop (suc fuel) left r = elim (left == 0) [
  | true ↦ ([], r)
  | false ↦
      let (x, r') = next_u64 r in
      let n = min left 8 in
      let (rest, r'') = fill_loop fuel (left - n) r' in (take n (to_le_bytes 8 x) ++ rest, r'')
]

-- `fill` of a slice of `len` bytes.
unfoldable pub fill : ℕ → Rng → List ℕ × Rng
unfolding fill_loop
fill len r = fill_loop len len r

unfoldable pub next_u8 : Rng → ℕ × Rng
unfolding next_u64
next_u8 r = let (x, r') = next_u64 r in (u8 x, r')

unfoldable pub choice : ℕ → Rng → ℕ × Rng
unfolding next_u64
choice n r = let (x, r') = next_u64 r in (x % n, r')

unfoldable pub gen_opaque_predicate : Rng → ℕ × Rng
unfolding choice
gen_opaque_predicate r =
    let (c, r') = choice 4 r in
    (if c == 0 then 0xe0 else if c == 1 then 0xe1 else if c == 2 then 0xe2 else 0xe3, r')
