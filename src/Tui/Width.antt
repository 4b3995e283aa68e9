-- ===== src/Tui/Width.antt =====
-- src/tui.rs, `char_width`, `display_width` and `center_pad`.
use hello_old.Base.{
  ℕ, ◌+◌, ◌-◌, ◌/◌, ◌≤◌, ◌≡◌, ◌⊎◌, arith, Bool, true, false, ◌&&◌, ◌||◌, List, [], ◌∷◌, ◌==◌, leb,
  if◌then◌else◌,
}

abbrev pub between : ℕ → ℕ → ℕ → Bool
between lo hi cp = leb lo cp && leb cp hi

-- The ranges of wide characters, in the order of the source.
abbrev pub is_wide : ℕ → Bool
is_wide cp =
    between 0x1100 0x115f cp
    || between 0x2e80 0x303e cp
    || between 0x3041 0x33ff cp
    || between 0x3400 0x4dbf cp
    || between 0x4e00 0x9fff cp
    || between 0xa000 0xa4cf cp
    || between 0xac00 0xd7a3 cp
    || between 0xf900 0xfaff cp
    || between 0xfe30 0xfe4f cp
    || between 0xff00 0xff60 cp
    || between 0xffe0 0xffe6 cp
    || between 0x20000 0x2fffd cp
    || between 0x30000 0x3fffd cp

unfoldable pub char_width : ℕ → ℕ
char_width cp = if is_wide cp then 2 else 1

-- Where the loop of `display_width` is: in text, after an escape, or in a control sequence.
pub data Scan : Type 0 where
  in_text : Scan
  after_escape : Scan
  in_sequence : Scan

unfoldable pub width_from : Scan → List ℕ → ℕ
width_from s [] = 0
width_from in_text (c ∷ chars) =
    if c == 0x1b then width_from after_escape chars else char_width c + width_from in_text chars
width_from after_escape (n ∷ chars) =
    if n == 0x5b then width_from in_sequence chars else width_from in_text chars
width_from in_sequence (c ∷ chars) =
    if between 0x40 0x7e c then width_from in_text chars else width_from in_sequence chars

unfoldable pub display_width : List ℕ → ℕ
unfolding width_from
display_width chars = width_from in_text chars

-- The width that `wrap_line` adds up, escapes counted like any character.
unfoldable pub raw_width : List ℕ → ℕ
raw_width [] = 0
raw_width (c ∷ chars) = char_width c + raw_width chars

unfoldable pub center_pad : List ℕ → ℕ → ℕ
center_pad line width = let w = display_width line in if leb width w then 0 else (width - w) / 2

pub char_width_bounds : (cp : ℕ) → (1 ≤ char_width cp) × (char_width cp ≤ 2)
unfolding char_width
char_width_bounds cp = either (is_wide cp)
  where
    either : (b : Bool) → (1 ≤ (if b then 2 else 1)) × ((if b then 2 else 1) ≤ 2)
    either true = (omega arith, omega arith)
    either false = (omega arith, omega arith)

branch_le : (b : Bool) (x y z : ℕ) → x ≤ z → y ≤ z → (if b then x else y) ≤ z
branch_le true x y z p q = p
branch_le false x y z p q = q

width_from-le-raw_width : (s : Scan) (chars : List ℕ) → width_from s chars ≤ raw_width chars
unfolding width_from raw_width
width_from-le-raw_width s [] = omega arith
width_from-le-raw_width in_text (c ∷ chars) =
    let a = width_from-le-raw_width after_escape chars in
    let t = width_from-le-raw_width in_text chars in
    branch_le (c == 0x1b) _ _ _ (omega arith) (omega arith)
width_from-le-raw_width after_escape (c ∷ chars) =
    let a = width_from-le-raw_width in_sequence chars in
    let t = width_from-le-raw_width in_text chars in
    branch_le (c == 0x5b) _ _ _ (omega arith) (omega arith)
width_from-le-raw_width in_sequence (c ∷ chars) =
    let a = width_from-le-raw_width in_text chars in
    let t = width_from-le-raw_width in_sequence chars in
    branch_le (between 0x40 0x7e c) _ _ _ (omega arith) (omega arith)

-- Escape sequences only take away from the width.
pub display_width-le-raw_width : (chars : List ℕ) → display_width chars ≤ raw_width chars
unfolding display_width
display_width-le-raw_width chars = width_from-le-raw_width in_text chars

-- A line that fits is centred: with the padding it still fits, and what is left on the right is as
-- much as on the left or one column more.
center_pad_centred :
    (line : List ℕ) (width : ℕ)
    → display_width line ≤ width
    → (center_pad line width + display_width line ≤ width)
      × ((width - (center_pad line width + display_width line) ≡ center_pad line width)
          ⊎ (width - (center_pad line width + display_width line) ≡ center_pad line width + 1))
unfolding center_pad
center_pad_centred line width fits = ground arith
