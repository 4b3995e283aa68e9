-- ===== src/Tui/Show.antt =====
-- src/tui.rs, `show`: the opening animation, the pages, and the loop that reads the keys. The size of
-- the terminal, what the polls give and the seeds of the letters are arguments.
use hello_old.Base.{
  get_elem?, ℕ, ◌+◌, ◌-◌, ◌%◌, List, [], ◌∷◌, ◌++◌, Bool, true, false, Option, none, some, ltb, leb,
  if◌then◌else◌, length, codes,
}
use hello_old.Tui.Width.{center_pad}
use hello_old.Tui.Wrap.{wrap_line}
use hello_old.Tui.Pages.{Turned, stay, leave, pages_of}
use hello_old.Tui.Keys.{
  Poll, ready, closed, quiet, failed, NavKey, go_next, go_prev, go_burn, decode,
}
use hello_old.Tui.Rng.{next_u64}
use hello_old.Tui.Screen.{
  Draw, pure, ◌>>=◌, ◌>>◌, cursor, print, flush, sleep, feed, for_range, spaces, hide_cursor,
  c_reset, c_dim, c_green, c_yellow, c_cyan, c_bg_dark,
}
use hello_old.Tui.Effects.{
  fill_bg_full, fullscreen_garble, scanline_effect, draw_status_bar, reveal_row_fast, draw_hline,
  right_of,
}
use hello_old.Tui.Dialog.{confirm_dialog}

-- A line of the text, or nothing for an index that is out of range.
unfoldable pub text_row : ℕ → ℕ → Option (List ℕ) → Draw Unit
text_row w row none = pure tt
text_row w row (some line) = do
  let pad = center_pad line w
  cursor row 1
  print (c_bg_dark ∷ c_dim ∷ spaces pad ∷ c_green ∷ line ∷ c_reset ∷ [])
  print (c_bg_dark ∷ spaces (right_of pad line w) ∷ [])
  flush

-- The first loop of `draw_page`; the row after the last is passed on.
unfoldable pub page_rows : List (List ℕ) → ℕ → ℕ → List ℕ → ℕ → Draw ℕ
page_rows content w bottom [] row = pure row
page_rows content w bottom (idx ∷ indices) row =
    let rest = page_rows content w bottom indices (row + 1) in
    if ltb bottom row then pure row else do text_row w row (get_elem? content idx); rest

unfoldable pub draw_page : ℕ → List (List ℕ) → Option (List ℕ) → ℕ → ℕ → Draw Unit
draw_page w content none top bottom = feed
draw_page w content (some indices) top bottom = do
  row ← page_rows content w bottom indices top
  for_range row (bottom + 1 - row) (λ r. do cursor r 1; print (c_bg_dark ∷ spaces w ∷ c_reset ∷ []))
  feed

-- A byte that is no key is passed over.
abbrev pub or_later : Option NavKey → Draw (Option NavKey) → Draw (Option NavKey)
or_later none later = later
or_later (some key) later = pure (some key)

-- `nav_wait` at a terminal, with what it does while it waits. Time that is waited is a sleep; a byte,
-- whether it is a key or not, sends no heartbeat.
unfoldable pub wait_key : List Poll → Draw (Option NavKey)
wait_key [] = pure none
wait_key (ready ms b seq ∷ polls) = do sleep ms; or_later (decode b seq) (wait_key polls)
wait_key (closed ms ∷ polls) = do sleep ms; pure (some go_next)
wait_key (quiet ∷ polls) = do sleep 100; feed; wait_key polls
wait_key (failed ms ∷ polls) = do sleep ms; pure (some go_next)

-- What the user does in one round of the loop: the polls of `nav_wait`, and for a burn the seed of the
-- letter and the polls of `confirm_burn`.
pub record Press : Type 0 where
  pub polls : List Poll
  pub seed : ℕ
  pub answer : List Poll

unfoldable pub target_of : ℕ → ℕ
target_of seed = b'A' + next_u64 seed % 26

-- What a drawing shows of a text: its lines, the pages, and the size of the terminal.
pub record Story : Type 0 where
  pub width : ℕ
  pub height : ℕ
  pub content : List (List ℕ)
  pub pages : List (List ℕ)

unfoldable pub wrapped : ℕ → List (List ℕ) → List (List ℕ)
wrapped width [] = []
wrapped width (line ∷ lines) = wrap_line line width ++ wrapped width lines

unfoldable pub story_of : ℕ → ℕ → List (List ℕ) → Story
story_of width height lines =
    let content = wrapped width lines in
    record {
      width = width;
      height = height;
      content = content;
      pages = pages_of (length content) height;
    }

abbrev pub body_top : ℕ
body_top = 4

abbrev pub body_bottom : Story → ℕ
body_bottom s = s.height - 3

unfoldable pub draw_body : Story → ℕ → Draw Unit
draw_body s page = draw_page s.width s.content (get_elem? s.pages page) body_top (body_bottom s)

abbrev pub hint_of : ℕ → List ℕ
hint_of count =
    if leb count 1
    then codes "  ▸ 按 q 退出并烧毁  "
    else codes "  ▸ 按 空格/Enter 翻页  ·  p 返回上一页  ·  q 烧毁  "

unfoldable pub draw_hint : Story → Draw Unit
draw_hint s = do
  let hint = hint_of (length s.pages)
  let hp = center_pad hint s.width
  cursor (body_bottom s) 1
  print (
      c_bg_dark
      ∷ c_dim
      ∷ spaces hp
      ∷ c_yellow
      ∷ hint
      ∷ spaces (right_of hp hint s.width)
      ∷ c_reset
      ∷ [])
  flush

unfoldable pub turn_to : Story → ℕ → Draw (Option Turned)
turn_to s page = do draw_body s page; pure (some (stay page))

-- The page is drawn again when the letter was wrong; `none` is a call that still waits.
unfoldable pub answered : Story → ℕ → Option Bool → Draw (Option Turned)
answered s page none = pure none
answered s page (some true) = pure (some leave)
answered s page (some false) = turn_to s page

unfoldable pub act_on_key : Story → ℕ → Press → Option NavKey → Draw (Option Turned)
act_on_key s page press none = pure none
act_on_key s page press (some go_next) =
    if ltb (page + 1) (length s.pages) then turn_to s (page + 1) else pure (some (stay page))
act_on_key s page press (some go_prev) =
    if ltb 0 page then turn_to s (page - 1) else pure (some (stay page))
act_on_key s page press (some go_burn) = do
  ok ← confirm_dialog s.width s.height (target_of press.seed) press.answer
  answered s page ok

unfoldable pub reading_round : Story → ℕ → Press → Draw (Option Turned)
reading_round s page press = do draw_hint s; key ← wait_key press.polls; act_on_key s page press key

abbrev pub go_on : (ℕ → Draw (Option Bool)) → Option Turned → Draw (Option Bool)
go_on loop none = pure none
go_on loop (some (stay page)) = do feed; loop page
go_on loop (some leave) = pure (some true)

-- The loop, and what `show` returns; `none` is a call that still waits.
unfoldable pub show_loop : Story → ℕ → List Press → Draw (Option Bool)
show_loop s page [] = pure none
show_loop s page (press ∷ presses) = do
  turned ← reading_round s page press
  go_on (λ page'. show_loop s page' presses) turned

abbrev title : List ℕ
title = codes "█ TIME GATE █  OPENING THE DOOR  █ TIME GATE █"

unfoldable pub opening_screens : ℕ → ℕ → List ℕ → Draw Unit
opening_screens width height unlock_time = do
  hide_cursor
  fill_bg_full width height
  fullscreen_garble width height 20 100
  scanline_effect width height
  fill_bg_full width height
  draw_status_bar width height unlock_time
  reveal_row_fast 1 title width height unlock_time
  reveal_row_fast 2 (codes "──") width height unlock_time
  draw_hline 3 width c_cyan

unfoldable pub show : ℕ → ℕ → Bool → List (List ℕ) → List ℕ → List Press → Draw (Option Bool)
show width height is_tty lines unlock_time presses = do
  opening_screens width height unlock_time
  let s = story_of width height lines
  draw_body s 0
  if is_tty then show_loop s 0 presses else pure (some false)
