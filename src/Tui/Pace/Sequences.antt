-- ===== src/Tui/Pace/Sequences.antt =====
-- The pace of the prompts and of the panel of the stages.
use hello_old.Base.{ℕ, ◌+◌, ◌≤◌, arith, List, ◌%◌, ◌==◌, ltb}
use hello_old.Tui.Screen.{c_green}
use hello_old.Tui.Prompts.{
  garbled_text, plain_text, dynamic_center_prompt, blink_text, dynamic_center_error,
  dynamic_center_message, success_frame, success_sequence,
}
use hello_old.Tui.Panel.{F32, DecryptFx, draw, finish, stage_row, row_line, spark}
use hello_old.Tui.Pace.{
  Paced, ◌▹◌, bind-Paced, pure-Paced, cursor-Paced, print-Paced, flush-Paced, sleep-Paced,
  feed-Paced, fill_line-Paced, draw_glyph-Paced, random-Paced, reseed-Paced, if-Paced, kept,
}
use hello_old.Tui.Pace.Loops.{for_range-Paced, for_range-fed, for_each-Paced}
use hello_old.Tui.Pace.Screens.{clear-Paced, fill_bg_full-Paced, draw_status_bar-Paced}

module _ {limit : ℕ} where
  plain_text-Paced :
      {t : ℕ} (width row : ℕ) (text ground colour : List ℕ)
      → Paced limit t (plain_text width row text ground colour) t
  unfolding plain_text
  plain_text-Paced width row text ground colour = cursor-Paced _ _ ▹ print-Paced _ ▹ print-Paced _

  garbled_text-Paced :
      {t : ℕ} (width row : ℕ) (text colour : List ℕ) (ms : ℕ)
      → t + ms ≤ limit
      → Paced limit t (garbled_text width row text colour ms) 0
  unfolding garbled_text
  garbled_text-Paced width row text colour ms fits =
      cursor-Paced _ _
      ▹ bind-Paced (fill_line-Paced _) (λ left.
        bind-Paced (fill_line-Paced _)
          (λ right. print-Paced _ ▹ print-Paced _ ▹ flush-Paced ▹ sleep-Paced ms fits ▹ feed-Paced))

  pub dynamic_center_prompt-Paced :
      {t : ℕ} (width height : ℕ) (prompt : List ℕ)
      → t + 45 ≤ limit
      → Paced limit t (dynamic_center_prompt width height prompt) t
  unfolding dynamic_center_prompt
  dynamic_center_prompt-Paced width height prompt fits =
      fill_bg_full-Paced width height
      ▹ draw_status_bar-Paced width height _
      ▹ for_range-Paced _ _ (λ i. kept (garbled_text-Paced width _ prompt _ 45 fits))
      ▹ plain_text-Paced width _ prompt _ _
      ▹ draw_status_bar-Paced width height _
      ▹ flush-Paced

  pub dynamic_center_message-Paced :
      {t : ℕ} (width height : ℕ) (msg colour : List ℕ)
      → t + 35 ≤ limit
      → Paced limit t (dynamic_center_message width height msg colour) 0
  unfolding dynamic_center_message
  dynamic_center_message-Paced width height msg colour fits =
      fill_bg_full-Paced width height
      ▹ draw_status_bar-Paced width height _
      ▹ for_range-fed _ 5 (λ i. garbled_text-Paced width _ msg colour 35 fits) (omega arith)
      ▹ plain_text-Paced width _ msg _ colour
      ▹ draw_status_bar-Paced width height _
      ▹ flush-Paced

  blink_text-Paced :
      {t : ℕ} (width row : ℕ) (msg : List ℕ)
      → t + 400 ≤ limit
      → Paced limit t (blink_text width row msg) t
  unfolding blink_text
  blink_text-Paced width row msg fits = kept (
      plain_text-Paced width row msg _ _
      ▹ flush-Paced
      ▹ sleep-Paced 200 (omega arith)
      ▹ plain_text-Paced width row msg _ _
      ▹ flush-Paced
      ▹ sleep-Paced 200 (omega arith)
      ▹ feed-Paced)

  pub dynamic_center_error-Paced :
      {t : ℕ} (width height : ℕ) (msg : List ℕ)
      → t + 400 ≤ limit
      → Paced limit t (dynamic_center_error width height msg) (t + 300)
  unfolding dynamic_center_error
  dynamic_center_error-Paced width height msg fits =
      for_range-Paced _ _ (λ i. kept (garbled_text-Paced width _ msg _ 40 (omega arith)))
      ▹ for_range-Paced _ _ (λ i. blink_text-Paced width _ msg fits)
      ▹ plain_text-Paced width _ msg _ _
      ▹ flush-Paced
      ▹ sleep-Paced 300 (omega arith)

  pub success_frame-Paced :
      {t : ℕ} (width height : ℕ) → t + 50 ≤ limit → Paced limit t (success_frame width height) t
  unfolding success_frame
  success_frame-Paced width height fits = kept (
      for_range-Paced _ _
        (λ r. bind-Paced (fill_line-Paced _) (λ g. cursor-Paced _ _ ▹ print-Paced _))
      ▹ flush-Paced
      ▹ sleep-Paced 50 fits
      ▹ feed-Paced)

  pub success_sequence-Paced :
      (width height : ℕ) → 100 ≤ limit → Paced limit 50 (success_sequence width height) 50
  unfolding success_sequence
  success_sequence-Paced width height fits =
      clear-Paced
      ▹ for_each-Paced _ _ (λ i msg.
        dynamic_center_message-Paced width height msg c_green (omega arith)
        ▹ sleep-Paced 50 (omega arith))
      ▹ clear-Paced
      ▹ for_range-Paced _ _ (λ i. success_frame-Paced width height (omega arith))
      ▹ clear-Paced

  spark-Paced : {t : ℕ} (line : List ℕ) → Paced limit t (spark line) t
  unfolding spark
  spark-Paced line = bind-Paced random-Paced (λ x.
      if-Paced (x % 3 == 0) (λ h. bind-Paced draw_glyph-Paced (λ c. pure-Paced _))
        (λ h. pure-Paced _))

  stage_row-Paced :
      {t : ℕ} (f : F32) (fx : DecryptFx) (active : F32.Number f) (i : ℕ) (label : List ℕ)
      → Paced limit t (stage_row f fx active i label) t
  unfolding stage_row row_line
  stage_row-Paced f fx active i label =
      cursor-Paced _ _
      ▹ bind-Paced
          (if-Paced (ltb i fx.current) (λ h. pure-Paced _)
            (λ h. if-Paced (i == fx.current) (λ h. spark-Paced _) (λ h. pure-Paced _)))
          (λ line. print-Paced _)

  pub draw-Paced :
      {t : ℕ} (f : F32) (fx : DecryptFx) (active : F32.Number f) (seed : ℕ)
      → Paced limit t (draw f fx active seed) 0
  unfolding draw
  draw-Paced f fx active seed =
      reseed-Paced seed
      ▹ cursor-Paced _ _
      ▹ bind-Paced (fill_line-Paced _) (λ above.
        print-Paced _
        ▹ cursor-Paced _ _
        ▹ print-Paced _
        ▹ for_each-Paced _ _ (stage_row-Paced f fx active)
        ▹ cursor-Paced _ _
        ▹ print-Paced _
        ▹ cursor-Paced _ _
        ▹ bind-Paced (fill_line-Paced _)
            (λ below. print-Paced _ ▹ draw_status_bar-Paced _ _ _ ▹ flush-Paced ▹ feed-Paced))

  pub finish-Paced : {t : ℕ} → t + 150 ≤ limit → Paced limit t finish 0
  unfolding finish
  finish-Paced fits = sleep-Paced 150 fits ▹ clear-Paced ▹ flush-Paced ▹ feed-Paced
