-- ===== src/Tui/Prompts.antt =====
-- src/tui.rs, `dynamic_center_prompt`, `dynamic_center_error` and `dynamic_center_message`, and
-- `success_sequence` of src/main.rs. The size of the terminal is an argument.
use hello_old.Base.{ℕ, ◌+◌, ◌-◌, ◌/◌, List, [], ◌∷◌, codes}
use hello_old.Tui.Width.{display_width}
use hello_old.Tui.Screen.{
  Draw, ◌>>=◌, ◌>>◌, cursor, print, flush, sleep, feed, clear, fill_line, for_range, for_each,
  spaces, c_reset, c_dim, c_green, c_bright_white, c_cyan, c_red, c_bg_dark,
}
use hello_old.Tui.Effects.{fill_bg_full, draw_status_bar}

-- `pad`, and what is left on the right of a text between two spaces on either side.
abbrev pub pad_of : ℕ → List ℕ → ℕ
pad_of width text = (width - (display_width text + 4)) / 2

abbrev pub right_rest : ℕ → List ℕ → ℕ
right_rest width text = width - (pad_of width text + display_width text + 4)

abbrev gap : List ℕ
gap = codes "  "

-- A frame of the animation: the text between random glyphs.
unfoldable pub garbled_text : ℕ → ℕ → List ℕ → List ℕ → ℕ → Draw Unit
garbled_text width row text colour ms = do
  cursor row 1
  left ← fill_line (pad_of width text)
  right ← fill_line (right_rest width text)
  print (c_bg_dark ∷ c_dim ∷ left ∷ colour ∷ gap ∷ text ∷ gap ∷ c_reset ∷ [])
  print (c_bg_dark ∷ c_dim ∷ right ∷ [])
  flush
  sleep ms
  feed

-- The text on its own, on a ground of the colour `ground`.
unfoldable pub plain_text : ℕ → ℕ → List ℕ → List ℕ → List ℕ → Draw Unit
plain_text width row text ground colour = do
  cursor row 1
  print (c_bg_dark ∷ ground ∷ spaces (pad_of width text) ∷ colour ∷ gap ∷ text ∷ gap ∷ [])
  print (c_bg_dark ∷ spaces (right_rest width text) ∷ c_reset ∷ [])

unfoldable pub dynamic_center_prompt : ℕ → ℕ → List ℕ → Draw Unit
dynamic_center_prompt width height prompt = do
  let row = height / 2
  fill_bg_full width height
  draw_status_bar width height (codes "AWAITING PASSWORD")
  for_range 0 10 (λ i. garbled_text width row prompt c_cyan 45)
  plain_text width row prompt c_dim c_cyan
  draw_status_bar width height (codes "AWAITING PASSWORD")
  flush

-- One blink of an error.
unfoldable pub blink_text : ℕ → ℕ → List ℕ → Draw Unit
blink_text width row msg = do
  plain_text width row msg c_dim c_red
  flush
  sleep 200
  plain_text width row msg c_bright_white c_red
  flush
  sleep 200
  feed

unfoldable pub dynamic_center_error : ℕ → ℕ → List ℕ → Draw Unit
dynamic_center_error width height msg = do
  let row = height / 2 + 2
  for_range 0 7 (λ i. garbled_text width row msg c_red 40)
  for_range 0 4 (λ i. blink_text width row msg)
  plain_text width row msg c_dim c_red
  flush
  sleep 300

unfoldable pub dynamic_center_message : ℕ → ℕ → List ℕ → List ℕ → Draw Unit
dynamic_center_message width height msg colour = do
  let row = height / 2
  fill_bg_full width height
  draw_status_bar width height (codes "PROCESSING...")
  for_range 0 6 (λ i. garbled_text width row msg colour 35)
  plain_text width row msg c_dim colour
  draw_status_bar width height (codes "PROCESSING...")
  flush

abbrev success_msgs : List (List ℕ)
success_msgs =
    codes "█ ACCESS GRANTED █" ∷ codes "█ DECRYPTION SUCCESSFUL █" ∷ codes "█ PAYLOAD READY █" ∷ []

unfoldable pub success_frame : ℕ → ℕ → Draw Unit
success_frame width height = do
  for_range 1 height (λ r. do g ← fill_line width; cursor r 1; print (c_green ∷ g ∷ c_reset ∷ []))
  flush
  sleep 50
  feed

unfoldable pub success_sequence : ℕ → ℕ → Draw Unit
success_sequence width height = do
  clear
  for_each 0 success_msgs (λ i msg. do dynamic_center_message width height msg c_green; sleep 50)
  clear
  for_range 0 12 (λ i. success_frame width height)
  clear
