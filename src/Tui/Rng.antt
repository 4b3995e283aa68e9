-- ===== src/Tui/Rng.antt =====
-- src/tui.rs, `Rng`: the xorshift generator of the screen and the glyphs that it draws.
use hello_old.Base.{ℕ, zero, suc, ◌*◌, ◌/◌, ◌%◌, ◌^◌, List, ◌∷◌, [], bit_xor, u64, get_or, length}
use hello_old.Base.{codes}

-- The record of the source has one field, the state.
abbrev pub Rng : Type 0
Rng = ℕ

abbrev pub glyphs : List ℕ
glyphs = codes "ABCDEFGHJKLMNPQRSTUVWXYZabcdefghjkmnpqrstuvwxyz0123456789#@%&*+=!?$<>/\\|;:~^"

-- `Rng::new`, from the clock and the address of the local variable.
unfoldable pub new : ℕ → ℕ → Rng
new nanos addr = bit_xor (bit_xor nanos 0x9e3779b97f4a7c15) addr

-- The new state is the value too.
unfoldable pub next_u64 : Rng → Rng
next_u64 r =
    let a = bit_xor r (u64 (r * 2 ^ 13)) in
    let b = bit_xor a (a / 2 ^ 7) in bit_xor b (u64 (b * 2 ^ 17))

unfoldable pub glyph : Rng → ℕ × Rng
unfolding next_u64
glyph r = let r' = next_u64 r in (get_or glyphs (r' % length glyphs) 0, r')

unfoldable pub fill : ℕ → Rng → List ℕ × Rng
unfolding glyph
fill zero r = ([], r)
fill (suc width) r = let (c, r') = glyph r in let (rest, r'') = fill width r' in (c ∷ rest, r'')
