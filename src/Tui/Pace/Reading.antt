-- ===== src/Tui/Pace/Reading.antt =====
-- The pace of `show` of src/tui.rs.
use hello_old.Base.{
  ℕ, ◌+◌, ◌≤◌, arith, List, [], ◌∷◌, Bool, true, false, Option, none, some, ltb, length, All,
}
use hello_old.Tui.Keys.{Poll, NavKey, go_next, go_prev, go_burn}
use hello_old.Tui.Pages.{Turned, stay, leave}
use hello_old.Tui.Screen.{Draw, c_cyan}
use hello_old.Tui.Dialog.{show_dialog, box_row, letter_row, confirm_dialog}
use hello_old.Tui.Show.{
  text_row, page_rows, draw_page, Press, Story, draw_body, draw_hint, turn_to, answered, act_on_key,
  reading_round, go_on, show_loop, opening_screens, show,
}
use hello_old.Tui.Pace.{
  Paced, ◌▹◌, bind-Paced, pure-Paced, cursor-Paced, print-Paced, flush-Paced, feed-Paced, if-Paced,
  relax,
}
use hello_old.Tui.Pace.Waits.{TimelyAnswer, TimelyPress, wait_confirm-Paced, wait_key-Paced}
use hello_old.Tui.Pace.Loops.{for_range-Paced}
use hello_old.Tui.Pace.Screens.{
  hide_cursor-Paced, fill_bg_full-Paced, fullscreen_garble-Paced, scanline_effect-Paced,
  draw_status_bar-Paced, reveal_row_fast-Paced, draw_hline-Paced,
}

module _ {limit : ℕ} where
  box_row-Paced :
      {t : ℕ} (inner_w left r : ℕ) (s colour : List ℕ)
      → Paced limit t (box_row inner_w left r s colour) t
  unfolding box_row
  box_row-Paced inner_w left r s colour = cursor-Paced _ _ ▹ print-Paced _

  letter_row-Paced :
      {t : ℕ} (inner_w left r up : ℕ) → Paced limit t (letter_row inner_w left r up) t
  unfolding letter_row
  letter_row-Paced inner_w left r up =
      cursor-Paced _ _ ▹ print-Paced _ ▹ print-Paced _ ▹ print-Paced _ ▹ print-Paced _

  show_dialog-Paced :
      {t : ℕ} (width height target : ℕ) → Paced limit t (show_dialog width height target) 0
  unfolding show_dialog
  show_dialog-Paced width height target =
      for_range-Paced _ _ (λ r. cursor-Paced _ _ ▹ print-Paced _)
      ▹ (cursor-Paced _ _ ▹ print-Paced _)
      ▹ box_row-Paced _ _ _ _ _
      ▹ box_row-Paced _ _ _ _ _
      ▹ letter_row-Paced _ _ _ _
      ▹ box_row-Paced _ _ _ _ _
      ▹ (cursor-Paced _ _ ▹ print-Paced _)
      ▹ flush-Paced
      ▹ feed-Paced

  text_row-Paced :
      {t : ℕ} (w row : ℕ) (line : Option (List ℕ)) → Paced limit t (text_row w row line) t
  unfolding text_row
  text_row-Paced w row none = pure-Paced _
  text_row-Paced w row (some line) = cursor-Paced _ _ ▹ print-Paced _ ▹ print-Paced _ ▹ flush-Paced

  page_rows-Paced :
      {t : ℕ} (content : List (List ℕ)) (w bottom : ℕ) (indices : List ℕ) (row : ℕ)
      → Paced limit t (page_rows content w bottom indices row) t
  unfolding page_rows
  page_rows-Paced content w bottom [] row = pure-Paced _
  page_rows-Paced content w bottom (idx ∷ indices) row =
      let rest = page_rows-Paced content w bottom indices (row + 1) in
      if-Paced (ltb bottom row) (λ h. pure-Paced _) (λ h. text_row-Paced w row _ ▹ rest)

  draw_page-Paced :
      {t : ℕ} (w : ℕ) (content : List (List ℕ)) (page : Option (List ℕ)) (top bottom : ℕ)
      → Paced limit t (draw_page w content page top bottom) 0
  unfolding draw_page
  draw_page-Paced w content none top bottom = feed-Paced
  draw_page-Paced w content (some indices) top bottom =
      bind-Paced (page_rows-Paced content w bottom indices top)
        (λ row. for_range-Paced _ _ (λ r. cursor-Paced _ _ ▹ print-Paced _) ▹ feed-Paced)

  draw_body-Paced : {t : ℕ} (s : Story) (page : ℕ) → Paced limit t (draw_body s page) 0
  unfolding draw_body
  draw_body-Paced s page = draw_page-Paced _ _ _ _ _

  turn_to-Paced : {t : ℕ} (s : Story) (page : ℕ) → Paced limit t (turn_to s page) 0
  unfolding turn_to
  turn_to-Paced s page = draw_body-Paced s page ▹ pure-Paced _

  draw_hint-Paced : {t : ℕ} (s : Story) → Paced limit t (draw_hint s) t
  unfolding draw_hint
  draw_hint-Paced s = cursor-Paced _ _ ▹ print-Paced _ ▹ flush-Paced

  go_on-Paced :
      {t : ℕ} {loop : ℕ → Draw (Option Bool)}
      → ((page : ℕ) → Paced limit 0 (loop page) t)
      → (turned : Option Turned) → Paced limit t (go_on loop turned) t
  go_on-Paced p none = pure-Paced _
  go_on-Paced p (some (stay page)) = feed-Paced ▹ p page
  go_on-Paced p (some leave) = pure-Paced _

  opening_screens-Paced :
      (width height : ℕ) (unlock_time : List ℕ)
      → 100 ≤ limit
      → Paced limit 0 (opening_screens width height unlock_time) 0
  unfolding opening_screens
  opening_screens-Paced width height unlock_time fits =
      hide_cursor-Paced
      ▹ fill_bg_full-Paced width height
      ▹ fullscreen_garble-Paced width height 20 100 (omega arith)
      ▹ scanline_effect-Paced width height (omega arith)
      ▹ fill_bg_full-Paced width height
      ▹ draw_status_bar-Paced width height unlock_time
      ▹ reveal_row_fast-Paced (omega arith) 1 _ width height unlock_time
      ▹ reveal_row_fast-Paced (omega arith) 2 _ width height unlock_time
      ▹ draw_hline-Paced 3 width c_cyan

module _ {limit : ℕ} (most : ℕ) (fits : most ≤ limit) where
  by_most : {A : Type 0} {t : ℕ} {m : Draw A} → Paced limit t m 0 → Paced limit t m most
  by_most p = relax most p (omega arith) fits

  answered-Paced :
      (s : Story) (page : ℕ) (ok : Option Bool) → Paced limit most (answered s page ok) most
  unfolding answered
  answered-Paced s page none = pure-Paced _
  answered-Paced s page (some true) = pure-Paced _
  answered-Paced s page (some false) = by_most (turn_to-Paced s page)

  confirm_dialog-Paced :
      (width height target : ℕ) (polls : List Poll)
      → TimelyAnswer most 0 polls
      → Paced limit most (confirm_dialog width height target polls) most
  unfolding confirm_dialog
  confirm_dialog-Paced width height target polls timely =
      show_dialog-Paced width height target
      ▹ wait_confirm-Paced most fits 0 target polls (omega arith) timely

  act_on_key-Paced :
      (s : Story) (page : ℕ) (press : Press) (key : Option NavKey)
      → TimelyAnswer most 0 press.answer
      → Paced limit most (act_on_key s page press key) most
  unfolding act_on_key
  act_on_key-Paced s page press none timely = pure-Paced _
  act_on_key-Paced s page press (some go_next) timely =
      if-Paced (ltb (page + 1) (length s.pages)) (λ h. by_most (turn_to-Paced s _))
        (λ h. pure-Paced _)
  act_on_key-Paced s page press (some go_prev) timely =
      if-Paced (ltb 0 page) (λ h. by_most (turn_to-Paced s _)) (λ h. pure-Paced _)
  act_on_key-Paced s page press (some go_burn) timely =
      bind-Paced (confirm_dialog-Paced _ _ _ _ timely) (answered-Paced s page)

  reading_round-Paced :
      (s : Story) (page : ℕ) (press : Press)
      → TimelyPress most press
      → Paced limit 0 (reading_round s page press) most
  unfolding reading_round
  reading_round-Paced s page press (timely, answer) =
      draw_hint-Paced s
      ▹ bind-Paced (wait_key-Paced most fits 0 press.polls (omega arith) timely)
          (λ key. act_on_key-Paced s page press key answer)

  show_loop-Paced :
      (s : Story) (page : ℕ) (presses : List Press)
      → All (TimelyPress most) presses
      → Paced limit 0 (show_loop s page presses) most
  unfolding show_loop
  show_loop-Paced s page [] timely = by_most (pure-Paced _)
  show_loop-Paced s page (press ∷ presses) (timely, rest) =
      bind-Paced (reading_round-Paced s page press timely)
        (go_on-Paced (λ page'. show_loop-Paced s page' presses rest))

  pub show-Paced :
      (width height : ℕ) (is_tty : Bool) (lines : List (List ℕ)) (unlock_time : List ℕ)
      (presses : List Press)
      → 100 ≤ limit
      → All (TimelyPress most) presses
      → Paced limit 0 (show width height is_tty lines unlock_time presses) most
  unfolding show
  show-Paced width height is_tty lines unlock_time presses room timely =
      opening_screens-Paced width height unlock_time room
      ▹ draw_body-Paced _ 0
      ▹ if-Paced is_tty (λ h. show_loop-Paced _ 0 presses timely) (λ h. by_most (pure-Paced _))
