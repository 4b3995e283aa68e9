-- ===== src/Tui/Bounds/Screens.antt =====
-- Where the pieces of src/tui.rs and its prompts move the cursor.
use hello_old.Base.{ℕ, ◌+◌, ◌%◌, ◌≤◌, arith, List, [], ◌∷◌, ltb, ◌==◌}
use hello_old.Tui.Screen.{clear, hide_cursor, show_cursor, c_bright_white, c_green, c_dim}
use hello_old.Tui.Effects.{
  fill_bg_full, fullscreen_garble, scanline_effect, draw_status_bar, draw_hline, garble_row,
  garble_frame, reveal_from, settle_row, reveal_row_fast,
}
use hello_old.Tui.Prompts.{garbled_text, plain_text}
use hello_old.Tui.Burning.{half_typed, typing_frame, typed_warning, blink}
use hello_old.Tui.Bounds.{
  OnScreen, ◌▹◌, bind-OnScreen, pure-OnScreen, row_start, print-OnScreen, flush-OnScreen,
  cleared-OnScreen, sleep-OnScreen, feed-OnScreen, fill_line-OnScreen, draw_glyph-OnScreen,
  for_range-OnScreen, for_rev-OnScreen, if-OnScreen,
}

module _ {width height : ℕ} where
  pub clear-OnScreen : OnScreen width height clear
  unfolding clear
  clear-OnScreen = cleared-OnScreen ▹ flush-OnScreen

  pub hide_cursor-OnScreen : OnScreen width height hide_cursor
  unfolding hide_cursor
  hide_cursor-OnScreen = print-OnScreen _ ▹ flush-OnScreen

  pub show_cursor-OnScreen : OnScreen width height show_cursor
  unfolding show_cursor
  show_cursor-OnScreen = print-OnScreen _ ▹ flush-OnScreen

  half_typed-OnScreen : (i j : ℕ) (chars : List ℕ) → OnScreen width height (half_typed i j chars)
  unfolding half_typed
  half_typed-OnScreen i j [] = pure-OnScreen _
  half_typed-OnScreen i j (c ∷ chars) =
      bind-OnScreen (if-OnScreen (ltb j i) (λ h. pure-OnScreen c) (λ h. draw_glyph-OnScreen))
        (λ here. bind-OnScreen (half_typed-OnScreen i (j + 1) chars) (λ rest. pure-OnScreen _))

module _ {width height : ℕ} (wide : 1 ≤ width) (tall : 11 ≤ height) where
  pub fill_bg_full-OnScreen : OnScreen width height (fill_bg_full width height)
  unfolding fill_bg_full
  fill_bg_full-OnScreen =
      print-OnScreen _
      ▹ for_range-OnScreen _ _ (λ r from to. row_start r wide from (omega arith) ▹ print-OnScreen _)
      ▹ flush-OnScreen

  garble_row-OnScreen :
      (colour : List ℕ) (r : ℕ)
      → 1 ≤ r
      → r ≤ height
      → OnScreen width height (garble_row width colour r)
  garble_row-OnScreen colour r from to =
      bind-OnScreen (fill_line-OnScreen _) (λ g. row_start r wide from to ▹ print-OnScreen _)

  pub garble_frame-OnScreen :
      (colour : List ℕ) (ms : ℕ) → OnScreen width height (garble_frame width height colour ms)
  garble_frame-OnScreen colour ms =
      for_range-OnScreen _ _ (λ r from to. garble_row-OnScreen colour r from (omega arith))
      ▹ flush-OnScreen
      ▹ sleep-OnScreen ms
      ▹ feed-OnScreen

  pub fullscreen_garble-OnScreen :
      (frames ms : ℕ) → OnScreen width height (fullscreen_garble width height frames ms)
  unfolding fullscreen_garble
  fullscreen_garble-OnScreen frames ms =
      for_range-OnScreen _ _ (λ i from to. garble_frame-OnScreen c_bright_white ms)

  pub scanline_effect-OnScreen : OnScreen width height (scanline_effect width height)
  unfolding scanline_effect
  scanline_effect-OnScreen =
      for_range-OnScreen _ _ (λ r from to.
        garble_row-OnScreen c_green r from (omega arith)
        ▹ flush-OnScreen
        ▹ sleep-OnScreen 12
        ▹ feed-OnScreen)
      ▹ for_rev-OnScreen _ _ (λ r from to.
        garble_row-OnScreen c_dim r from (omega arith)
        ▹ flush-OnScreen
        ▹ sleep-OnScreen 8
        ▹ feed-OnScreen)

  pub draw_status_bar-OnScreen :
      (text : List ℕ) → OnScreen width height (draw_status_bar width height text)
  unfolding draw_status_bar
  draw_status_bar-OnScreen text =
      row_start height wide (omega arith) (omega arith) ▹ print-OnScreen _ ▹ flush-OnScreen

  module _ (row : ℕ) (low : 1 ≤ row) (high : row ≤ height) where
    pub draw_hline-OnScreen :
        (colour : List ℕ) → OnScreen width height (draw_hline row width colour)
    unfolding draw_hline
    draw_hline-OnScreen colour = row_start row wide low high ▹ print-OnScreen _ ▹ flush-OnScreen

    settle_row-OnScreen :
        (line : List ℕ) (pad : ℕ) → OnScreen width height (settle_row row line width pad)
    settle_row-OnScreen line pad =
        row_start row wide low high ▹ print-OnScreen _ ▹ print-OnScreen _ ▹ print-OnScreen _

    reveal_from-OnScreen :
        (unlock_time : List ℕ) (pad i : ℕ) (chars revealed : List ℕ) (shown_w : ℕ)
        → OnScreen width height
            (reveal_from row width height unlock_time pad i chars revealed shown_w)
    unfolding reveal_from
    reveal_from-OnScreen unlock_time pad i [] revealed shown_w = pure-OnScreen tt
    reveal_from-OnScreen unlock_time pad i (ch ∷ chars) revealed shown_w =
        bind-OnScreen (fill_line-OnScreen _) (λ g.
          row_start row wide low high
          ▹ print-OnScreen _
          ▹ draw_status_bar-OnScreen unlock_time
          ▹ flush-OnScreen
          ▹ sleep-OnScreen 10
          ▹ if-OnScreen (i % 3 == 0) (λ h. feed-OnScreen) (λ h. pure-OnScreen tt)
          ▹ reveal_from-OnScreen unlock_time pad (i + 1) chars _ _)

    pub reveal_row_fast-OnScreen :
        (line unlock_time : List ℕ)
        → OnScreen width height (reveal_row_fast row line width height unlock_time)
    unfolding reveal_row_fast
    reveal_row_fast-OnScreen line unlock_time =
        reveal_from-OnScreen unlock_time _ 0 line [] 0
        ▹ settle_row-OnScreen line _
        ▹ draw_status_bar-OnScreen unlock_time
        ▹ flush-OnScreen
        ▹ row_start row wide low high
        ▹ print-OnScreen _
        ▹ flush-OnScreen
        ▹ sleep-OnScreen 35
        ▹ settle_row-OnScreen line _
        ▹ flush-OnScreen
        ▹ sleep-OnScreen 18
        ▹ feed-OnScreen

    pub garbled_text-OnScreen :
        (text colour : List ℕ) (ms : ℕ)
        → OnScreen width height (garbled_text width row text colour ms)
    unfolding garbled_text
    garbled_text-OnScreen text colour ms =
        row_start row wide low high
        ▹ bind-OnScreen (fill_line-OnScreen _) (λ left.
          bind-OnScreen (fill_line-OnScreen _) (λ right.
            print-OnScreen _
            ▹ print-OnScreen _
            ▹ flush-OnScreen
            ▹ sleep-OnScreen ms
            ▹ feed-OnScreen))

    pub plain_text-OnScreen :
        (text ground colour : List ℕ)
        → OnScreen width height (plain_text width row text ground colour)
    unfolding plain_text
    plain_text-OnScreen text ground colour =
        row_start row wide low high ▹ print-OnScreen _ ▹ print-OnScreen _

    pub typing_frame-OnScreen : (i : ℕ) → OnScreen width height (typing_frame width row i)
    unfolding typing_frame
    typing_frame-OnScreen i =
        row_start row wide low high
        ▹ bind-OnScreen (fill_line-OnScreen _) (λ left.
          bind-OnScreen (fill_line-OnScreen _) (λ right.
            bind-OnScreen (half_typed-OnScreen i 0 _) (λ line.
              print-OnScreen _
              ▹ print-OnScreen _
              ▹ flush-OnScreen
              ▹ sleep-OnScreen 30
              ▹ feed-OnScreen)))

    pub typed_warning-OnScreen : OnScreen width height (typed_warning width row)
    unfolding typed_warning
    typed_warning-OnScreen =
        row_start row wide low high
        ▹ print-OnScreen _
        ▹ print-OnScreen _
        ▹ print-OnScreen _
        ▹ flush-OnScreen

    pub blink-OnScreen : OnScreen width height (blink width row)
    unfolding blink
    blink-OnScreen =
        row_start row wide low high
        ▹ print-OnScreen _
        ▹ print-OnScreen _
        ▹ flush-OnScreen
        ▹ sleep-OnScreen 110
        ▹ row_start row wide low high
        ▹ print-OnScreen _
        ▹ print-OnScreen _
        ▹ flush-OnScreen
        ▹ sleep-OnScreen 90
        ▹ feed-OnScreen
