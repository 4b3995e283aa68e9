-- ===== src/Siv/Blocks.antt =====
-- src/serpent_siv.rs, the operations on 16-byte blocks. A loop over the bytes of a block is a
-- recursion on its list; the loop of `dbl` runs downwards in place, as the source has it.
use hello_old.Base.{
  ℕ, zero, suc, ◌+◌, ◌-◌, ◌*◌, ◌/◌, List, [], ◌∷◌, ◌++◌, ◌==◌, ltb, if◌then◌else◌, length, get_or,
  set, replicate, bit_or, bit_and, bit_xor, u8,
}

-- B.
abbrev pub block_size : ℕ
block_size = 16

unfoldable pub xor_block : List ℕ → List ℕ → List ℕ
xor_block [] b = []
xor_block (x ∷ a) [] = []
xor_block (x ∷ a) (y ∷ b) = bit_xor x y ∷ xor_block a b

-- `while i > 0 { s[i] = (s[i] << 1) | (s[i - 1] >> 7); i -= 1; }`.
unfoldable pub dbl_loop : ℕ → List ℕ → List ℕ
dbl_loop zero s = s
dbl_loop (suc i) s =
    dbl_loop i (set s (suc i) (bit_or (u8 (get_or s (suc i) 0 * 2)) (get_or s i 0 / 128)))

unfoldable pub dbl : List ℕ → List ℕ
unfolding dbl_loop
dbl s =
    let msb = get_or s (block_size - 1) 0 / 128 in
    let s₁ = dbl_loop (block_size - 1) s in
    let s₂ = set s₁ 0 (u8 (get_or s₁ 0 0 * 2)) in
    if msb == 1 then set s₂ 0 (bit_xor (get_or s₂ 0 0) 0x87) else s₂

-- `b[x.len()] |= 0x80` in a zeroed block that starts with `x`, of fewer than 16 bytes.
unfoldable pub pad16 : List ℕ → List ℕ
pad16 x =
    let b = x ++ replicate (block_size - length x) 0 in
    set b (length x) (bit_or (get_or b (length x) 0) 0x80)

-- `overflowing_add` byte by byte, until one does not carry.
unfoldable pub inc128 : List ℕ → List ℕ
inc128 [] = []
inc128 (v ∷ c) = let rest = inc128 c in u8 (v + 1) ∷ (if ltb 255 (v + 1) then rest else c)

unfoldable pub ctr_mask : List ℕ → List ℕ
ctr_mask v =
    let v₁ = set v 3 (bit_and (get_or v 3 0) 0x7f) in set v₁ 7 (bit_and (get_or v₁ 7 0) 0x7f)
