-- ===== src/Tui/Panel.antt =====
-- src/tui.rs, `DecryptFx`: the panel of the stages. The numbers of type f32 are an interface: what the
-- source does with them, and no law.
use hello_old.Base.{
  pad_left, ℕ, ◌+◌, ◌-◌, ◌/◌, ◌%◌, List, [], ◌∷◌, ◌++◌, ltb, ◌==◌, if◌then◌else◌, length, codes,
  decimal, wrapping_sub,
}
use hello_old.Tui.Width.{display_width, center_pad}
use hello_old.Tui.Screen.{
  Draw, pure, ◌>>=◌, ◌>>◌, cursor, print, flush, sleep, feed, clear, fill_line, draw_glyph, random,
  reseed, for_each, repeat, spaces, c_reset, c_dim, c_green, c_yellow, c_cyan, c_bg_dark,
}
use hello_old.Tui.Effects.{draw_status_bar}

pub record F32 : Type 1 where
  pub Number : Type 0
  pub of_usize : ℕ → Number
  pub add : Number → Number → Number
  pub sub : Number → Number → Number
  pub mul : Number → Number → Number
  pub div : Number → Number → Number
  -- `clamp(0.0, 1.0)`, `as usize` and `{:>5.1}`.
  pub clamp_unit : Number → Number
  pub to_usize : Number → ℕ
  pub one_decimal : Number → List ℕ

pub record DecryptFx : Type 0 where
  pub width : ℕ
  pub height : ℕ
  pub stages : List (List ℕ)
  pub current : ℕ

unfoldable pub new : ℕ → ℕ → List (List ℕ) → DecryptFx
new width height stages = record { width = width; height = height; stages = stages; current = 0 }

unfoldable pub advance : DecryptFx → DecryptFx
advance fx =
    if ltb fx.current (length fx.stages) then record fx { current = fx.current + 1 } else fx

-- The first row of the stages.
unfoldable pub start_of : DecryptFx → ℕ
start_of fx = (fx.height - (length fx.stages + 4)) / 2 + 1

abbrev panel_title : List ℕ
panel_title = codes "█ DECRYPTION SEQUENCE █"

-- The sign of a row and its colour.
abbrev pub marker : DecryptFx → ℕ → List ℕ × List ℕ
marker fx i =
    if ltb i fx.current
    then (codes "✓", c_green)
    else if i == fx.current
    then (codes "▶", c_yellow)
    else (codes " ", c_dim)

abbrev with_glyph : List ℕ → Draw (List ℕ)
with_glyph line = do c ← draw_glyph; pure (line ++ b' ' ∷ c ∷ [])

-- One time in three a space and a random glyph are added.
unfoldable pub spark : List ℕ → Draw (List ℕ)
spark line = do x ← random; if x % 3 == 0 then with_glyph line else pure line

-- How a row begins: the sign, the number of the stage and its label.
abbrev pub row_head : DecryptFx → ℕ → List ℕ → List ℕ
row_head fx i label =
    codes " "
    ++ (marker fx i).0
    ++ codes " ["
    ++ pad_left b'0' 2 (decimal (i + 1))
    ++ codes "] "
    ++ label

module _ (f : F32) where
  unfoldable pub gauge : F32.Number f → List ℕ
  gauge active =
      let filled = F32.to_usize f (F32.mul f (F32.of_usize f 14) (F32.clamp_unit f active)) in
      codes "  [" ++ (repeat 0x2588 filled ++ repeat 0x2591 (14 - filled)) ++ codes "]"

  unfoldable pub row_line : DecryptFx → F32.Number f → ℕ → List ℕ → Draw (List ℕ)
  row_line fx active i label =
      let head = row_head fx i label in
      if ltb i fx.current
      then pure (head ++ codes "  DONE")
      else if i == fx.current
      then spark (head ++ gauge active)
      else pure head

  unfoldable pub stage_row : DecryptFx → F32.Number f → ℕ → List ℕ → Draw Unit
  stage_row fx active i label = do
    cursor (start_of fx + i) 1
    line ← row_line fx active i label
    print (c_bg_dark ∷ (marker fx i).1 ∷ line ∷ spaces (fx.width - display_width line) ∷ [])

  -- `DecryptFx::draw`, with the seed of its generator. The release profile does not check the
  -- subtraction from `start`.
  unfoldable pub draw : DecryptFx → F32.Number f → ℕ → Draw Unit
  draw fx active seed = do
    let w = fx.width
    let start = start_of fx
    let tpad = center_pad panel_title w
    reseed seed
    cursor (wrapping_sub start 2) 1
    above ← fill_line w
    print (c_bg_dark ∷ c_dim ∷ above ∷ c_reset ∷ [])
    cursor (wrapping_sub start 1) 1
    print (
        c_bg_dark
        ∷ c_cyan
        ∷ spaces tpad
        ∷ panel_title
        ∷ spaces (w - (tpad + display_width panel_title))
        ∷ c_reset
        ∷ [])
    for_each 0 fx.stages (stage_row fx active)
    let bottom = start + length fx.stages
    cursor bottom 1
    print (c_bg_dark ∷ c_cyan ∷ repeat 0x2550 w ∷ c_reset ∷ [])
    cursor (bottom + 1) 1
    below ← fill_line w
    print (c_bg_dark ∷ c_dim ∷ below ∷ c_reset ∷ [])
    draw_status_bar w fx.height (codes "PROCESSING...")
    flush
    feed

unfoldable pub finish : Draw Unit
finish = do sleep 150; clear; flush; feed
