-- ===== src/Tui/Bounds/Session.antt =====
-- Where the screens of src/main.rs that end a run move the cursor.
use hello_old.Base.{ℕ, ◌≤◌, arith, Bool, true, false, List, Option, none, some, codes, All}
use hello_old.Tui.Screen.{c_green, c_red}
use hello_old.Tui.Prompts.{dynamic_center_message, success_frame, success_sequence}
use hello_old.Tui.Burning.{
  bar_row, draw_progress_bars_all, countdown, burn_with_progress, measure_labels,
}
use hello_old.Tui.Panel.{F32, finish}
use hello_old.Tui.Show.{Press}
use hello_old.Tui.Session.{after_show, last_screens, after_refusal, refusal_screens}
use hello_old.Tui.Bounds.{
  Inside, OnScreen, ◌▹◌, bind-OnScreen, pure-OnScreen, row_start, print-OnScreen, flush-OnScreen,
  sleep-OnScreen, feed-OnScreen, fill_line-OnScreen, for_range-OnScreen, for_rev-OnScreen,
  for_each-OnScreen,
}
use hello_old.Tui.Bounds.Reading.{show-OnScreen}
use hello_old.Tui.Bounds.Screens.{
  clear-OnScreen, show_cursor-OnScreen, fill_bg_full-OnScreen, garble_frame-OnScreen,
  draw_status_bar-OnScreen, garbled_text-OnScreen, plain_text-OnScreen, typing_frame-OnScreen,
  typed_warning-OnScreen, blink-OnScreen,
}

module _ {width height : ℕ} (wide : 1 ≤ width) (tall : 11 ≤ height) where
  dynamic_center_message-OnScreen :
      (msg colour : List ℕ) → OnScreen width height (dynamic_center_message width height msg colour)
  unfolding dynamic_center_message
  dynamic_center_message-OnScreen msg colour =
      fill_bg_full-OnScreen wide tall
      ▹ draw_status_bar-OnScreen wide tall (codes "PROCESSING...")
      ▹ for_range-OnScreen _ _
          (λ i from to. garbled_text-OnScreen wide tall _ (omega arith) (omega arith) msg colour 35)
      ▹ plain_text-OnScreen wide tall _ (omega arith) (omega arith) msg _ colour
      ▹ draw_status_bar-OnScreen wide tall (codes "PROCESSING...")
      ▹ flush-OnScreen

  success_sequence-OnScreen : OnScreen width height (success_sequence width height)
  unfolding success_sequence success_frame
  success_sequence-OnScreen =
      clear-OnScreen
      ▹ for_each-OnScreen _ _
          (λ i msg from to. dynamic_center_message-OnScreen msg c_green ▹ sleep-OnScreen 50)
      ▹ clear-OnScreen
      ▹ for_range-OnScreen _ _ (λ i from to.
        for_range-OnScreen _ _ (λ r low high.
          bind-OnScreen (fill_line-OnScreen _)
            (λ g. row_start r wide low (omega arith) ▹ print-OnScreen _))
        ▹ flush-OnScreen
        ▹ sleep-OnScreen 50
        ▹ feed-OnScreen)
      ▹ clear-OnScreen

  module _ (f : F32) where
    bars-OnScreen :
        (current : ℕ) (progress : F32.Number f)
        → OnScreen width height
            (draw_progress_bars_all f width height measure_labels current progress)
    unfolding draw_progress_bars_all bar_row
    bars-OnScreen current progress =
        for_each-OnScreen _ _ (λ i label from to.
          row_start _ wide (omega arith) (omega arith) ▹ print-OnScreen _ ▹ print-OnScreen _)
        ▹ flush-OnScreen
        ▹ feed-OnScreen

    burn_with_progress-OnScreen : OnScreen width height (burn_with_progress f width height)
    unfolding burn_with_progress countdown
    burn_with_progress-OnScreen =
        fill_bg_full-OnScreen wide tall
        ▹ draw_status_bar-OnScreen wide tall (codes "BURNING...")
        ▹ for_each-OnScreen _ _ (λ i c from to.
          for_range-OnScreen _ _
            (λ n low high. typing_frame-OnScreen wide tall _ (omega arith) (omega arith) i))
        ▹ typed_warning-OnScreen wide tall _ (omega arith) (omega arith)
        ▹ for_range-OnScreen _ _
            (λ n from to. blink-OnScreen wide tall _ (omega arith) (omega arith))
        ▹ fill_bg_full-OnScreen wide tall
        ▹ draw_status_bar-OnScreen wide tall (codes "BURNING...")
        ▹ for_rev-OnScreen _ _ (λ i from to.
          for_range-OnScreen _ _ (λ step low high. bars-OnScreen i _ ▹ sleep-OnScreen 10))
        ▹ bars-OnScreen 0 _
        ▹ sleep-OnScreen 300
        ▹ for_range-OnScreen _ _ (λ n from to. garble_frame-OnScreen wide tall c_red 45)
        ▹ clear-OnScreen
        ▹ show_cursor-OnScreen

    after_show-OnScreen :
        (burn : Option Bool) → OnScreen width height (after_show f width height burn)
    unfolding after_show
    after_show-OnScreen none = pure-OnScreen _
    after_show-OnScreen (some true) = burn_with_progress-OnScreen ▹ pure-OnScreen _
    after_show-OnScreen (some false) = show_cursor-OnScreen ▹ pure-OnScreen _

    after_refusal-OnScreen :
        (burn : Option Bool) → OnScreen width height (after_refusal f width height burn)
    unfolding after_refusal
    after_refusal-OnScreen none = pure-OnScreen _
    after_refusal-OnScreen (some burn) = burn_with_progress-OnScreen ▹ pure-OnScreen _

    last_screens-OnScreen :
        (is_tty : Bool) (lines : List (List ℕ)) (unlock_time : List ℕ) (presses : List Press)
        → OnScreen width height (last_screens f width height is_tty lines unlock_time presses)
    unfolding last_screens finish
    last_screens-OnScreen is_tty lines unlock_time presses =
        (sleep-OnScreen 150 ▹ clear-OnScreen ▹ flush-OnScreen ▹ feed-OnScreen)
        ▹ success_sequence-OnScreen
        ▹ feed-OnScreen
        ▹ bind-OnScreen (show-OnScreen wide tall is_tty lines unlock_time presses)
            after_show-OnScreen

    refusal_screens-OnScreen :
        (is_tty : Bool) (lines : List (List ℕ)) (unlock_time : List ℕ) (presses : List Press)
        → OnScreen width height (refusal_screens f width height is_tty lines unlock_time presses)
    unfolding refusal_screens
    refusal_screens-OnScreen is_tty lines unlock_time presses =
        bind-OnScreen (show-OnScreen wide tall is_tty lines unlock_time presses)
          after_refusal-OnScreen

-- On a terminal of at least 11 rows, the screens of the end of a run and those of a refusal only move the
-- cursor to a row and a column of the terminal, whatever is shown and pressed.
pub screens-Inside :
    (f : F32) (width height : ℕ) (is_tty : Bool) (lines : List (List ℕ)) (unlock_time : List ℕ)
    (presses : List Press) (seed : ℕ)
    → 1 ≤ width
    → 11 ≤ height
    → All
        (Inside width height)
        (last_screens f width height is_tty lines unlock_time presses seed).0
      × All
          (Inside width height)
          (refusal_screens f width height is_tty lines unlock_time presses seed).0
screens-Inside f width height is_tty lines unlock_time presses seed wide tall = (
  (last_screens-OnScreen wide tall f is_tty lines unlock_time presses).events seed,
  (refusal_screens-OnScreen wide tall f is_tty lines unlock_time presses).events seed,
)
