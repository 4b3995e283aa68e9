-- ===== src/Tui/Pace/Screens.antt =====
-- The pace of the pieces that the screens of src/tui.rs are made of.
use hello_old.Base.{ℕ, ◌+◌, ◌*◌, ◌≤◌, arith, List, [], ◌∷◌, ◌%◌, ◌==◌}
use hello_old.Tui.Screen.{clear, hide_cursor, show_cursor, c_bright_white, c_green, c_dim}
use hello_old.Tui.Effects.{
  fill_bg_full, fullscreen_garble, scanline_effect, draw_status_bar, draw_hline, garble_row,
  garble_frame, reveal_from, settle_row, reveal_row_fast,
}
use hello_old.Tui.Pace.{
  Paced, ◌▹◌, bind-Paced, pure-Paced, cursor-Paced, print-Paced, flush-Paced, cleared-Paced,
  sleep-Paced, feed-Paced, fill_line-Paced, if-Paced, kept, relax, sooner,
}
use hello_old.Tui.Pace.Loops.{for_range-Paced, for_rev-Paced}

module _ {limit t : ℕ} where
  pub clear-Paced : Paced limit t clear t
  unfolding clear
  clear-Paced = cleared-Paced ▹ flush-Paced

  pub hide_cursor-Paced : Paced limit t hide_cursor t
  unfolding hide_cursor
  hide_cursor-Paced = print-Paced _ ▹ flush-Paced

  pub show_cursor-Paced : Paced limit t show_cursor t
  unfolding show_cursor
  show_cursor-Paced = print-Paced _ ▹ flush-Paced

  pub fill_bg_full-Paced : (width height : ℕ) → Paced limit t (fill_bg_full width height) t
  unfolding fill_bg_full
  fill_bg_full-Paced width height =
      print-Paced _ ▹ for_range-Paced _ _ (λ r. cursor-Paced _ _ ▹ print-Paced _) ▹ flush-Paced

  pub garble_row-Paced :
      (width : ℕ) (colour : List ℕ) (r : ℕ) → Paced limit t (garble_row width colour r) t
  garble_row-Paced width colour r =
      bind-Paced (fill_line-Paced _) (λ g. cursor-Paced _ _ ▹ print-Paced _)

  pub garble_frame-Paced :
      (width height : ℕ) (colour : List ℕ) (ms : ℕ)
      → t + ms ≤ limit
      → Paced limit t (garble_frame width height colour ms) 0
  garble_frame-Paced width height colour ms fits =
      for_range-Paced _ _ (garble_row-Paced width colour)
      ▹ flush-Paced
      ▹ sleep-Paced ms fits
      ▹ feed-Paced

  pub fullscreen_garble-Paced :
      (width height frames ms : ℕ)
      → t + ms ≤ limit
      → Paced limit t (fullscreen_garble width height frames ms) t
  unfolding fullscreen_garble
  fullscreen_garble-Paced width height frames ms fits =
      for_range-Paced _ _ (λ i. kept (garble_frame-Paced width height c_bright_white ms fits))

  pub scanline_effect-Paced :
      (width height : ℕ) → t + 12 ≤ limit → Paced limit t (scanline_effect width height) t
  unfolding scanline_effect
  scanline_effect-Paced width height fits =
      for_range-Paced _ _ (λ r.
        kept (garble_row-Paced width c_green r ▹ flush-Paced ▹ sleep-Paced 12 fits ▹ feed-Paced))
      ▹ for_rev-Paced _ _ (λ r.
        kept
          (garble_row-Paced width c_dim r ▹ flush-Paced ▹ sleep-Paced 8 (omega arith) ▹ feed-Paced))

  pub draw_status_bar-Paced :
      (width height : ℕ) (unlock_time : List ℕ)
      → Paced limit t (draw_status_bar width height unlock_time) t
  unfolding draw_status_bar
  draw_status_bar-Paced width height unlock_time = cursor-Paced _ _ ▹ print-Paced _ ▹ flush-Paced

  pub draw_hline-Paced :
      (row width : ℕ) (colour : List ℕ) → Paced limit t (draw_hline row width colour) t
  unfolding draw_hline
  draw_hline-Paced row width colour = cursor-Paced _ _ ▹ print-Paced _ ▹ flush-Paced

  pub settle_row-Paced :
      (row : ℕ) (line : List ℕ) (width pad : ℕ) → Paced limit t (settle_row row line width pad) t
  settle_row-Paced row line width pad =
      cursor-Paced _ _ ▹ print-Paced _ ▹ print-Paced _ ▹ print-Paced _

module _ {limit : ℕ} (fits : 73 ≤ limit) where
  -- The heartbeat comes with every third character.
  reveal_from-Paced :
      (row width height : ℕ) (unlock_time : List ℕ) (pad i : ℕ) (chars revealed : List ℕ)
      (shown_w : ℕ)
      → Paced limit
          ((i + 2) % 3 * 10)
          (reveal_from row width height unlock_time pad i chars revealed shown_w)
          20
  unfolding reveal_from
  reveal_from-Paced row width height unlock_time pad i [] revealed shown_w =
      relax 20 (pure-Paced tt) (omega arith) (omega arith)
  reveal_from-Paced row width height unlock_time pad i (ch ∷ chars) revealed shown_w =
      bind-Paced (fill_line-Paced _) (λ g.
        cursor-Paced _ _
        ▹ print-Paced _
        ▹ draw_status_bar-Paced width height unlock_time
        ▹ flush-Paced
        ▹ sleep-Paced 10 (omega arith)
        ▹ if-Paced (i % 3 == 0)
            (λ h. relax ((i + 1 + 2) % 3 * 10) feed-Paced (omega arith) (omega arith))
            (λ h. relax ((i + 1 + 2) % 3 * 10) (pure-Paced tt) (ground arith) (omega arith))
        ▹ reveal_from-Paced row width height unlock_time pad (i + 1) chars _ _)

  pub reveal_row_fast-Paced :
      (row : ℕ) (line : List ℕ) (width height : ℕ) (unlock_time : List ℕ)
      → Paced limit 0 (reveal_row_fast row line width height unlock_time) 0
  unfolding reveal_row_fast
  reveal_row_fast-Paced row line width height unlock_time =
      sooner 20 (reveal_from-Paced row width height unlock_time _ 0 line [] 0) (omega arith)
        (omega arith)
      ▹ settle_row-Paced row line width _
      ▹ draw_status_bar-Paced width height unlock_time
      ▹ flush-Paced
      ▹ cursor-Paced _ _
      ▹ print-Paced _
      ▹ flush-Paced
      ▹ sleep-Paced 35 (omega arith)
      ▹ settle_row-Paced row line width _
      ▹ flush-Paced
      ▹ sleep-Paced 18 (omega arith)
      ▹ feed-Paced
