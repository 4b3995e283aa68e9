-- ===== src/Tui/Pace/Burn.antt =====
-- The pace of the burning.
use hello_old.Base.{ℕ, ◌+◌, ◌≤◌, arith, List, [], ◌∷◌, ltb, codes}
use hello_old.Tui.Screen.{c_red}
use hello_old.Tui.Panel.{F32}
use hello_old.Tui.Burning.{
  half_typed, typing_frame, typed_warning, blink, bar_row, draw_progress_bars_all, countdown,
  burn_with_progress,
}
use hello_old.Tui.Pace.{
  kept, relax, Paced, ◌▹◌, bind-Paced, pure-Paced, cursor-Paced, print-Paced, flush-Paced,
  sleep-Paced, feed-Paced, fill_line-Paced, draw_glyph-Paced, if-Paced,
}
use hello_old.Tui.Pace.Loops.{for_range-Paced, for_range-fed, for_rev-Paced, for_each-Paced}
use hello_old.Tui.Pace.Screens.{
  clear-Paced, show_cursor-Paced, fill_bg_full-Paced, draw_status_bar-Paced, garble_frame-Paced,
}

module _ {limit t : ℕ} (f : F32) (low : 10 ≤ t) (fits : t + 400 ≤ limit) where
  half_typed-Paced : (i j : ℕ) (chars : List ℕ) → Paced limit t (half_typed i j chars) t
  unfolding half_typed
  half_typed-Paced i j [] = pure-Paced _
  half_typed-Paced i j (c ∷ chars) =
      bind-Paced (if-Paced (ltb j i) (λ h. pure-Paced c) (λ h. draw_glyph-Paced))
        (λ here. bind-Paced (half_typed-Paced i (j + 1) chars) (λ rest. pure-Paced _))

  typing_frame-Paced : (width row i : ℕ) → Paced limit t (typing_frame width row i) 0
  unfolding typing_frame
  typing_frame-Paced width row i =
      cursor-Paced _ _
      ▹ bind-Paced (fill_line-Paced _) (λ left. bind-Paced (fill_line-Paced _) (λ right.
        bind-Paced (half_typed-Paced i 0 _) (λ line.
          print-Paced _ ▹ print-Paced _ ▹ flush-Paced ▹ sleep-Paced 30 (omega arith) ▹ feed-Paced)))

  typed_warning-Paced : (width row : ℕ) → Paced limit t (typed_warning width row) t
  unfolding typed_warning
  typed_warning-Paced width row =
      cursor-Paced _ _ ▹ print-Paced _ ▹ print-Paced _ ▹ print-Paced _ ▹ flush-Paced

  blink-Paced : (width row : ℕ) → Paced limit t (blink width row) 0
  unfolding blink
  blink-Paced width row =
      cursor-Paced _ _
      ▹ print-Paced _
      ▹ print-Paced _
      ▹ flush-Paced
      ▹ sleep-Paced 110 (omega arith)
      ▹ cursor-Paced _ _
      ▹ print-Paced _
      ▹ print-Paced _
      ▹ flush-Paced
      ▹ sleep-Paced 90 (omega arith)
      ▹ feed-Paced

  bar_row-Paced :
      (width start current : ℕ) (progress : F32.Number f) (i : ℕ) (label : List ℕ)
      → Paced limit t (bar_row f width start current progress i label) t
  unfolding bar_row
  bar_row-Paced width start current progress i label =
      cursor-Paced _ _ ▹ print-Paced _ ▹ print-Paced _

  draw_progress_bars_all-Paced :
      (width height : ℕ) (labels : List (List ℕ)) (current : ℕ) (progress : F32.Number f)
      → Paced limit t (draw_progress_bars_all f width height labels current progress) 0
  unfolding draw_progress_bars_all
  draw_progress_bars_all-Paced width height labels current progress =
      for_each-Paced _ _ (bar_row-Paced width _ current progress) ▹ flush-Paced ▹ feed-Paced

  countdown-Paced : (width height i : ℕ) → Paced limit t (countdown f width height i) t
  unfolding countdown
  countdown-Paced width height i = for_range-Paced _ _ (λ step.
      draw_progress_bars_all-Paced width height _ i _
      ▹ relax t (sleep-Paced 10 (omega arith)) low (omega arith))

  pub burn_with_progress-Paced :
      (width height : ℕ) → Paced limit t (burn_with_progress f width height) 0
  unfolding burn_with_progress
  burn_with_progress-Paced width height =
      fill_bg_full-Paced width height
      ▹ draw_status_bar-Paced width height (codes "BURNING...")
      ▹ for_each-Paced _ _ (λ i c. for_range-Paced _ _ (λ n. kept (typing_frame-Paced width _ i)))
      ▹ typed_warning-Paced width _
      ▹ for_range-Paced _ _ (λ n. kept (blink-Paced width _))
      ▹ fill_bg_full-Paced width height
      ▹ draw_status_bar-Paced width height (codes "BURNING...")
      ▹ for_rev-Paced _ _ (countdown-Paced width height)
      ▹ draw_progress_bars_all-Paced width height _ 0 _
      ▹ sleep-Paced 300 (omega arith)
      ▹ for_range-fed _ 2 (λ n. garble_frame-Paced width height c_red 45 (omega arith))
          (omega arith)
      ▹ clear-Paced
      ▹ show_cursor-Paced
