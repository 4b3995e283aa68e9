-- ===== src/Tui/Burning.antt =====
-- src/tui.rs, `burn_with_progress` and `draw_progress_bars_all`.
use hello_old.Base.{
  pad_left, ℕ, ◌+◌, ◌-◌, ◌/◌, List, [], ◌∷◌, ltb, ◌==◌, if◌then◌else◌, length, codes, decimal,
  utf8_len,
}
use hello_old.Tui.Width.{display_width, center_pad}
use hello_old.Tui.Screen.{
  Draw, pure, ◌>>=◌, ◌>>◌, cursor, print, flush, sleep, feed, clear, fill_line, draw_glyph,
  for_range, for_rev, for_each, repeat, spaces, show_cursor, c_reset, c_dim, c_green, c_yellow,
  c_cyan, c_red, c_bg_dark,
}
use hello_old.Tui.Effects.{fill_bg_full, garble_frame, draw_status_bar, right_of}
use hello_old.Tui.Panel.{F32}

abbrev pub warning : List ℕ
warning = codes "INITIATING SELF-DESTRUCT SEQUENCE"

-- The warning with the characters from the index `i` on not typed yet; `j` is the index of the first.
unfoldable pub half_typed : ℕ → ℕ → List ℕ → Draw (List ℕ)
half_typed i j [] = pure []
half_typed i j (c ∷ chars) = do
  here ← if ltb j i then pure c else draw_glyph
  rest ← half_typed i (j + 1) chars
  pure (here ∷ rest)

unfoldable pub typing_frame : ℕ → ℕ → ℕ → Draw Unit
typing_frame width row i = do
  let pad = center_pad warning width
  cursor row 1
  left ← fill_line pad
  right ← fill_line (right_of pad warning width)
  line ← half_typed i 0 warning
  print (c_bg_dark ∷ c_dim ∷ left ∷ c_red ∷ line ∷ [])
  print (c_bg_dark ∷ c_dim ∷ right ∷ [])
  flush
  sleep 30
  feed

unfoldable pub typed_warning : ℕ → ℕ → Draw Unit
typed_warning width row = do
  let pad = center_pad warning width
  cursor row 1
  print (c_bg_dark ∷ c_dim ∷ spaces pad ∷ c_red ∷ [])
  print (warning ∷ [])
  print (c_bg_dark ∷ spaces (right_of pad warning width) ∷ c_reset ∷ [])
  flush

abbrev cursor_block : List ℕ
cursor_block = codes "█"

unfoldable pub blink : ℕ → ℕ → Draw Unit
blink width row = do
  let bp = center_pad cursor_block width
  cursor row 1
  print (c_bg_dark ∷ c_dim ∷ spaces bp ∷ c_yellow ∷ cursor_block ∷ c_bg_dark ∷ [])
  print (spaces (width - (bp + 1)) ∷ [])
  flush
  sleep 110
  cursor row 1
  print (c_bg_dark ∷ c_dim ∷ spaces bp ∷ codes " " ∷ [])
  print (spaces (width - (bp + 1)) ∷ [])
  flush
  sleep 90
  feed

abbrev pub measure_labels : List (List ℕ)
measure_labels =
    codes "Wiping key memory"
    ∷ codes "Zeroing payload buffer"
    ∷ codes "Releasing guard pages"
    ∷ codes "Stopping watchdog"
    ∷ codes "Removing seccomp filter"
    ∷ codes "Deleting binary"
    ∷ codes "Clean exit"
    ∷ []

-- Every measure has the target 1.0.
module _ (f : F32) where
  unfoldable pub part_of : ℕ → F32.Number f → ℕ → F32.Number f
  part_of current progress i =
      let target = F32.of_usize f 1 in
      if ltb i current
      then target
      else if i == current
      then F32.mul f progress target
      else F32.of_usize f 0

  unfoldable pub bar_row : ℕ → ℕ → ℕ → F32.Number f → ℕ → List ℕ → Draw Unit
  bar_row width start current progress i label = do
    let bar_w = width - (utf8_len label + 13)
    let prog = part_of current progress i
    let filled = F32.to_usize f (F32.mul f (F32.of_usize f bar_w) prog)
    let pct = F32.one_decimal f (F32.mul f prog (F32.of_usize f 100))
    let colour = if ltb i current then c_green else if i == current then c_yellow else c_dim
    cursor (start + i) 1
    print (
        c_bg_dark
        ∷ c_cyan
        ∷ pad_left b' ' 2 (decimal (i + 1))
        ∷ codes " "
        ∷ label
        ∷ c_reset
        ∷ codes " ["
        ∷ colour
        ∷ repeat 0x2588 filled
        ∷ repeat 0x2591 (bar_w - filled)
        ∷ codes "] "
        ∷ pct
        ∷ codes "%"
        ∷ [])
    print (c_bg_dark ∷ spaces (width - (display_width label + bar_w + 13)) ∷ c_reset ∷ [])

  unfoldable pub draw_progress_bars_all : ℕ → ℕ → List (List ℕ) → ℕ → F32.Number f → Draw Unit
  draw_progress_bars_all width height labels current progress = do
    let start = (height - (length labels + 2)) / 2
    for_each 0 labels (bar_row width start current progress)
    flush
    feed

  abbrev remaining : ℕ → F32.Number f
  remaining step = F32.sub f (F32.of_usize f 1) (F32.div f (F32.of_usize f step) (F32.of_usize f 5))

  unfoldable pub countdown : ℕ → ℕ → ℕ → Draw Unit
  countdown width height i =
      for_range 0 6
        (λ step. do draw_progress_bars_all width height measure_labels i (remaining step); sleep 10)

  unfoldable pub burn_with_progress : ℕ → ℕ → Draw Unit
  burn_with_progress width height = do
    let row = height / 2
    fill_bg_full width height
    draw_status_bar width height (codes "BURNING...")
    for_each 0 warning (λ i c. for_range 0 2 (λ n. typing_frame width row i))
    typed_warning width row
    for_range 0 10 (λ n. blink width (row + 2))
    fill_bg_full width height
    draw_status_bar width height (codes "BURNING...")
    for_rev 0 (length measure_labels) (countdown width height)
    draw_progress_bars_all width height measure_labels 0 (F32.of_usize f 0)
    sleep 300
    for_range 0 3 (λ n. garble_frame width height c_red 45)
    clear
    show_cursor
