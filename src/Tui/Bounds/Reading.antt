-- ===== src/Tui/Bounds/Reading.antt =====
-- Where `show` of src/tui.rs moves the cursor.
use hello_old.Base.{ℕ, ◌+◌, ◌≤◌, arith, Bool, true, false, List, [], ◌∷◌, Option, none, some, ltb}
use hello_old.Tui.Pages.{Turned, stay, leave}
use hello_old.Tui.Keys.{
  Poll, ready, closed, quiet, failed, NavKey, go_next, go_prev, go_burn, decode,
}
use hello_old.Tui.Screen.{Draw, cursor_at, c_cyan}
use hello_old.Tui.Dialog.{
  left_of, top_of, box_row, letter_row, show_dialog, wait_confirm, confirm_dialog,
}
use hello_old.Tui.Show.{
  or_later, wait_key, Press, Story, story_of, draw_body, draw_hint, turn_to, answered, act_on_key,
  reading_round, go_on, show_loop, opening_screens, show,
}
use hello_old.Tui.Bounds.{
  OnScreen, ◌▹◌, bind-OnScreen, pure-OnScreen, emitted, row_start, print-OnScreen, flush-OnScreen,
  sleep-OnScreen, feed-OnScreen, for_range-OnScreen, if-OnScreen,
}
use hello_old.Tui.Bounds.Body.{draw_page-OnScreen}
use hello_old.Tui.Bounds.Screens.{
  hide_cursor-OnScreen, fill_bg_full-OnScreen, fullscreen_garble-OnScreen, scanline_effect-OnScreen,
  draw_status_bar-OnScreen, draw_hline-OnScreen, reveal_row_fast-OnScreen,
}

module _ {width height : ℕ} where
  wait_confirm-OnScreen :
      (target : ℕ) (polls : List Poll) → OnScreen width height (wait_confirm target polls)
  unfolding wait_confirm
  wait_confirm-OnScreen target [] = pure-OnScreen _
  wait_confirm-OnScreen target (ready ms b seq ∷ polls) = sleep-OnScreen ms ▹ pure-OnScreen _
  wait_confirm-OnScreen target (closed ms ∷ polls) = sleep-OnScreen ms ▹ pure-OnScreen _
  wait_confirm-OnScreen target (quiet ∷ polls) =
      sleep-OnScreen 100 ▹ feed-OnScreen ▹ wait_confirm-OnScreen target polls
  wait_confirm-OnScreen target (failed ms ∷ polls) = sleep-OnScreen ms ▹ pure-OnScreen _

  or_later-OnScreen :
      (key : Option NavKey) {later : Draw (Option NavKey)}
      → OnScreen width height later
      → OnScreen width height (or_later key later)
  or_later-OnScreen none p = p
  or_later-OnScreen (some k) p = pure-OnScreen _

  wait_key-OnScreen : (polls : List Poll) → OnScreen width height (wait_key polls)
  unfolding wait_key
  wait_key-OnScreen [] = pure-OnScreen _
  wait_key-OnScreen (ready ms b seq ∷ polls) =
      sleep-OnScreen ms ▹ or_later-OnScreen (decode b seq) (wait_key-OnScreen polls)
  wait_key-OnScreen (closed ms ∷ polls) = sleep-OnScreen ms ▹ pure-OnScreen _
  wait_key-OnScreen (quiet ∷ polls) = sleep-OnScreen 100 ▹ feed-OnScreen ▹ wait_key-OnScreen polls
  wait_key-OnScreen (failed ms ∷ polls) = sleep-OnScreen ms ▹ pure-OnScreen _

  go_on-OnScreen :
      {loop : ℕ → Draw (Option Bool)}
      → ((page : ℕ) → OnScreen width height (loop page))
      → (turned : Option Turned) → OnScreen width height (go_on loop turned)
  go_on-OnScreen p none = pure-OnScreen _
  go_on-OnScreen p (some (stay page)) = feed-OnScreen ▹ p page
  go_on-OnScreen p (some leave) = pure-OnScreen _

module _ {width height : ℕ} (wide : 1 ≤ width) (tall : 11 ≤ height) where
  box_row-OnScreen :
      (inner_w left r : ℕ) (s colour : List ℕ)
      → 1 ≤ left
      → left ≤ width
      → 1 ≤ r
      → r ≤ height
      → OnScreen width height (box_row inner_w left r s colour)
  unfolding box_row
  box_row-OnScreen inner_w left r s colour start end low high =
      emitted (cursor_at r left) (low, (high, (start, end))) ▹ print-OnScreen _

  letter_row-OnScreen :
      (inner_w left r up : ℕ)
      → 1 ≤ left
      → left ≤ width
      → 1 ≤ r
      → r ≤ height
      → OnScreen width height (letter_row inner_w left r up)
  unfolding letter_row
  letter_row-OnScreen inner_w left r up start end low high =
      emitted (cursor_at r left) (low, (high, (start, end)))
      ▹ print-OnScreen _
      ▹ print-OnScreen _
      ▹ print-OnScreen _
      ▹ print-OnScreen _

  left_fits : (inner_w : ℕ) → (1 ≤ left_of width inner_w) × (left_of width inner_w ≤ width)
  unfolding left_of
  left_fits inner_w = (omega arith, omega arith)

  top_fits : (1 ≤ top_of height) × (top_of height + 5 ≤ height)
  unfolding top_of
  top_fits = (omega arith, omega arith)

  show_dialog-OnScreen : (target : ℕ) → OnScreen width height (show_dialog width height target)
  unfolding show_dialog
  show_dialog-OnScreen target =
      let (start, end) = left_fits _ in
      let (low, high) = top_fits in
      for_range-OnScreen _ _
        (λ r from to. row_start r wide (omega arith) (omega arith) ▹ print-OnScreen _)
      ▹ (emitted (cursor_at _ _) (low, (omega arith, (start, end))) ▹ print-OnScreen _)
      ▹ box_row-OnScreen _ _ _ _ _ start end (omega arith) (omega arith)
      ▹ box_row-OnScreen _ _ _ _ _ start end (omega arith) (omega arith)
      ▹ letter_row-OnScreen _ _ _ _ start end (omega arith) (omega arith)
      ▹ box_row-OnScreen _ _ _ _ _ start end (omega arith) (omega arith)
      ▹ (emitted (cursor_at _ _) (omega arith, (omega arith, (start, end))) ▹ print-OnScreen _)
      ▹ flush-OnScreen
      ▹ feed-OnScreen

  opening_screens-OnScreen :
      (unlock_time : List ℕ) → OnScreen width height (opening_screens width height unlock_time)
  unfolding opening_screens
  opening_screens-OnScreen unlock_time =
      hide_cursor-OnScreen
      ▹ fill_bg_full-OnScreen wide tall
      ▹ fullscreen_garble-OnScreen wide tall 20 100
      ▹ scanline_effect-OnScreen wide tall
      ▹ fill_bg_full-OnScreen wide tall
      ▹ draw_status_bar-OnScreen wide tall unlock_time
      ▹ reveal_row_fast-OnScreen wide tall 1 (omega arith) (omega arith) _ unlock_time
      ▹ reveal_row_fast-OnScreen wide tall 2 (omega arith) (omega arith) _ unlock_time
      ▹ draw_hline-OnScreen wide tall 3 (omega arith) (omega arith) c_cyan

  module _ (lines : List (List ℕ)) where
    abbrev story : Story
    story = story_of width height lines

    draw_body-OnScreen : (page : ℕ) → OnScreen width height (draw_body story page)
    unfolding draw_body story_of
    draw_body-OnScreen page = draw_page-OnScreen wide _ _ 4 _ (omega arith) (omega arith)

    turn_to-OnScreen : (page : ℕ) → OnScreen width height (turn_to story page)
    unfolding turn_to
    turn_to-OnScreen page = draw_body-OnScreen page ▹ pure-OnScreen _

    draw_hint-OnScreen : OnScreen width height (draw_hint story)
    unfolding draw_hint story_of
    draw_hint-OnScreen =
        row_start _ wide (omega arith) (omega arith) ▹ print-OnScreen _ ▹ flush-OnScreen

    answered-OnScreen :
        (page : ℕ) (ok : Option Bool) → OnScreen width height (answered story page ok)
    unfolding answered
    answered-OnScreen page none = pure-OnScreen _
    answered-OnScreen page (some true) = pure-OnScreen _
    answered-OnScreen page (some false) = turn_to-OnScreen page

    act_on_key-OnScreen :
        (page : ℕ) (press : Press) (key : Option NavKey)
        → OnScreen width height (act_on_key story page press key)
    unfolding act_on_key confirm_dialog story_of
    act_on_key-OnScreen page press none = pure-OnScreen _
    act_on_key-OnScreen page press (some go_next) =
        if-OnScreen (ltb (page + 1) _) (λ h. turn_to-OnScreen _) (λ h. pure-OnScreen _)
    act_on_key-OnScreen page press (some go_prev) =
        if-OnScreen (ltb 0 page) (λ h. turn_to-OnScreen _) (λ h. pure-OnScreen _)
    act_on_key-OnScreen page press (some go_burn) =
        bind-OnScreen (show_dialog-OnScreen _ ▹ wait_confirm-OnScreen _ press.answer)
          (answered-OnScreen page)

    show_loop-OnScreen :
        (page : ℕ) (presses : List Press) → OnScreen width height (show_loop story page presses)
    unfolding show_loop reading_round
    show_loop-OnScreen page [] = pure-OnScreen _
    show_loop-OnScreen page (press ∷ presses) =
        bind-OnScreen
          (draw_hint-OnScreen
            ▹ bind-OnScreen (wait_key-OnScreen press.polls) (act_on_key-OnScreen page press))
          (go_on-OnScreen (λ page'. show_loop-OnScreen page' presses))

  pub show-OnScreen :
      (is_tty : Bool) (lines : List (List ℕ)) (unlock_time : List ℕ) (presses : List Press)
      → OnScreen width height (show width height is_tty lines unlock_time presses)
  unfolding show
  show-OnScreen is_tty lines unlock_time presses =
      opening_screens-OnScreen unlock_time
      ▹ draw_body-OnScreen lines 0
      ▹ if-OnScreen is_tty (λ h. show_loop-OnScreen lines 0 presses) (λ h. pure-OnScreen _)
