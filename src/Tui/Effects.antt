-- ===== src/Tui/Effects.antt =====
-- src/tui.rs: the pieces that the screens are made of, from `fill_bg_full` to `draw_status_bar`.
use hello_old.Base.{ℕ, ◌+◌, ◌-◌, ◌%◌, List, [], ◌∷◌, ◌++◌, ◌==◌, if◌then◌else◌, codes, utf8_len}
use hello_old.Tui.Width.{char_width, display_width, center_pad}
use hello_old.Tui.Screen.{
  Draw, pure, ◌>>=◌, ◌>>◌, cursor, print, flush, sleep, feed, fill_line, for_range, for_rev, repeat,
  spaces, c_reset, c_dim, c_green, c_yellow, c_bright_white, c_bg_dark, c_bg_black,
}

unfoldable pub fill_bg_full : ℕ → ℕ → Draw Unit
fill_bg_full width height = do
  print (c_bg_dark ∷ [])
  for_range 1 height (λ r. do cursor r 1; print (spaces width ∷ []))
  flush

-- A row of random glyphs in a colour.
abbrev pub garble_row : ℕ → List ℕ → ℕ → Draw Unit
garble_row width colour r = do
  g ← fill_line width
  cursor r 1
  print (c_bg_dark ∷ colour ∷ g ∷ c_reset ∷ [])

-- A frame in which every row is garbled.
abbrev pub garble_frame : ℕ → ℕ → List ℕ → ℕ → Draw Unit
garble_frame width height colour ms = do
  for_range 1 height (garble_row width colour)
  flush
  sleep ms
  feed

unfoldable pub fullscreen_garble : ℕ → ℕ → ℕ → ℕ → Draw Unit
fullscreen_garble width height frames ms =
    for_range 0 frames (λ i. garble_frame width height c_bright_white ms)

abbrev scan_row : ℕ → List ℕ → ℕ → ℕ → Draw Unit
scan_row width colour ms r = do garble_row width colour r; flush; sleep ms; feed

unfoldable pub scanline_effect : ℕ → ℕ → Draw Unit
scanline_effect width height = do
  for_range 1 height (scan_row width c_green 12)
  for_rev 1 height (scan_row width c_dim 8)

unfoldable pub draw_status_bar : ℕ → ℕ → List ℕ → Draw Unit
draw_status_bar width height unlock_time = do
  cursor height 1
  let status = codes " UNLOCK: " ++ unlock_time ++ codes "  "
  let pad = width - utf8_len status
  print (c_bg_black ∷ c_yellow ∷ status ∷ spaces pad ∷ c_reset ∷ [])
  flush

unfoldable pub draw_hline : ℕ → ℕ → List ℕ → Draw Unit
draw_hline row width colour = do
  cursor row 1
  print (c_bg_dark ∷ colour ∷ repeat 0x2550 width ∷ c_reset ∷ [])
  flush

-- The loop of `reveal_row_fast`: the characters to come, and those shown with their width.
unfoldable pub reveal_from : ℕ → ℕ → ℕ → List ℕ → ℕ → ℕ → List ℕ → List ℕ → ℕ → Draw Unit
reveal_from row width height unlock_time pad i [] revealed shown_w = pure tt
reveal_from row width height unlock_time pad i (ch ∷ chars) revealed shown_w = do
  let revealed' = revealed ++ ch ∷ []
  let shown_w' = shown_w + char_width ch
  g ← fill_line (width - (pad + shown_w'))
  cursor row 1
  print (c_bg_dark ∷ c_dim ∷ spaces pad ∷ c_green ∷ revealed' ∷ c_bright_white ∷ g ∷ c_reset ∷ [])
  draw_status_bar width height unlock_time
  flush
  sleep 10
  if i % 3 == 0 then feed else pure tt
  reveal_from row width height unlock_time pad (i + 1) chars revealed' shown_w'

abbrev pub right_of : ℕ → List ℕ → ℕ → ℕ
right_of pad line width = width - (pad + display_width line)

-- The line in green, on its own.
abbrev pub settle_row : ℕ → List ℕ → ℕ → ℕ → Draw Unit
settle_row row line width pad = do
  cursor row 1
  print (c_bg_dark ∷ c_dim ∷ spaces pad ∷ c_green ∷ [])
  print (line ∷ [])
  print (c_bg_dark ∷ spaces (right_of pad line width) ∷ [])

unfoldable pub reveal_row_fast : ℕ → List ℕ → ℕ → ℕ → List ℕ → Draw Unit
reveal_row_fast row line width height unlock_time = do
  let pad = center_pad line width
  reveal_from row width height unlock_time pad 0 line [] 0
  settle_row row line width pad
  draw_status_bar width height unlock_time
  flush
  cursor row 1
  print (
      c_bg_dark
      ∷ c_dim
      ∷ spaces pad
      ∷ c_bright_white
      ∷ line
      ∷ c_bg_dark
      ∷ spaces (right_of pad line width)
      ∷ [])
  flush
  sleep 35
  settle_row row line width pad
  flush
  sleep 18
  feed
