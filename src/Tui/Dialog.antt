-- ===== src/Tui/Dialog.antt =====
-- src/tui.rs, `show_dialog`, `confirm_dialog` and `wait_for_quit`.
use hello_old.Base.{
  ℕ, ◌+◌, ◌-◌, ◌/◌, List, [], ◌∷◌, ◌++◌, Bool, true, false, Option, none, some, leb, ◌==◌, ◌&&◌,
  ◌||◌, if◌then◌else◌, codes,
}
use hello_old.Tui.Width.{display_width}
use hello_old.Tui.Keys.{Poll, ready, closed, quiet, failed, lower}
use hello_old.Tui.Screen.{
  Draw, pure, ◌>>◌, cursor, print, flush, sleep, feed, for_range, show_cursor, repeat, spaces,
  c_reset, c_dim, c_green, c_bright_white, c_red, c_bg_dark,
}

-- `to_ascii_uppercase`.
abbrev pub upper : ℕ → ℕ
upper c = if leb 97 c && leb c 122 then c - 32 else c

abbrev pub dialog_title : List ℕ
dialog_title = codes " ⚠ 烧毁警告 "

abbrev pub dialog_body : List ℕ
dialog_body = codes " 密钥与档案即将永久销毁 "

abbrev pub prompt1 : ℕ → List ℕ
prompt1 up = codes " 请输入字母  " ++ up ∷ codes "  以确认烧毁，"

abbrev pub prompt2 : List ℕ
prompt2 = codes " 按其他任意键返回阅读。"

abbrev pub max : ℕ → ℕ → ℕ
max a b = if leb a b then b else a

-- The loop over the four texts.
unfoldable pub widest : ℕ → List (List ℕ) → ℕ
widest inner_w [] = inner_w
widest inner_w (l ∷ texts) = widest (max inner_w (display_width l + 2)) texts

unfoldable pub inner_width : ℕ → ℕ
inner_width up = widest 6 (dialog_title ∷ dialog_body ∷ prompt1 up ∷ prompt2 ∷ [])

abbrev pub box_h : ℕ
box_h = 6

unfoldable pub left_of : ℕ → ℕ → ℕ
left_of width inner_w = (width - (inner_w + 2)) / 2 + 1

unfoldable pub top_of : ℕ → ℕ
top_of height = (height - box_h) / 2 + 1

abbrev pub pad_left_of : ℕ → List ℕ → ℕ
pad_left_of inner_w s = (inner_w - display_width s) / 2

abbrev pub pad_right_of : ℕ → List ℕ → ℕ
pad_right_of inner_w s = inner_w - display_width s - pad_left_of inner_w s

-- The closure `row`, which draws the side of the box on both ends of a text.
unfoldable pub box_row : ℕ → ℕ → ℕ → List ℕ → List ℕ → Draw Unit
box_row inner_w left r s colour = do
  cursor r left
  print (
      c_bg_dark
      ∷ colour
      ∷ codes "║"
      ∷ spaces (pad_left_of inner_w s)
      ∷ s
      ∷ spaces (pad_right_of inner_w s)
      ∷ codes "║"
      ∷ c_reset
      ∷ c_bg_dark
      ∷ [])

-- `&s[..s.find(c).unwrap()]` and `&s[s.find(c).unwrap() + 1..]`, for a `c` of one byte.
unfoldable pub before_char : ℕ → List ℕ → List ℕ
before_char c [] = []
before_char c (x ∷ s) = if x == c then [] else x ∷ before_char c s

unfoldable pub after_char : ℕ → List ℕ → List ℕ
after_char c [] = []
after_char c (x ∷ s) = if x == c then s else after_char c s

-- The row with the letter, in colours of its own.
unfoldable pub letter_row : ℕ → ℕ → ℕ → ℕ → Draw Unit
letter_row inner_w left r up = do
  let s = prompt1 up
  cursor r left
  print (c_bg_dark ∷ c_dim ∷ codes "║" ∷ [])
  print (spaces (pad_left_of inner_w s) ∷ [])
  print (before_char up s ∷ c_green ∷ (up ∷ []) ∷ c_bright_white ∷ after_char up s ∷ [])
  print (spaces (pad_right_of inner_w s) ∷ codes "║" ∷ c_reset ∷ [])

abbrev edge_row : ℕ → ℕ → ℕ → List ℕ → List ℕ → Draw Unit
edge_row inner_w left r from to = do
  cursor r left
  print (c_bg_dark ∷ c_red ∷ (from ++ repeat 0x2550 inner_w ++ to) ∷ c_reset ∷ [])

unfoldable pub show_dialog : ℕ → ℕ → ℕ → Draw Unit
show_dialog width height target = do
  let up = upper target
  let inner_w = inner_width up
  let left = left_of width inner_w
  let top = top_of height
  for_range top box_h (λ r. do cursor r 1; print (c_bg_dark ∷ spaces width ∷ c_reset ∷ []))
  edge_row inner_w left top (codes "╔") (codes "╗")
  box_row inner_w left (top + 1) dialog_title c_red
  box_row inner_w left (top + 2) dialog_body c_dim
  letter_row inner_w left (top + 3) up
  box_row inner_w left (top + 4) prompt2 c_dim
  edge_row inner_w left (top + box_h - 1) (codes "╚") (codes "╝")
  flush
  feed

-- `confirm_burn` with what it does while it waits: a poll that finds nothing takes 100 ms, and then
-- the heartbeat is sent. Time that is waited is a sleep.
unfoldable pub wait_confirm : ℕ → List Poll → Draw (Option Bool)
wait_confirm target [] = pure none
wait_confirm target (ready ms b seq ∷ polls) = do sleep ms; pure (some (lower b == lower target))
wait_confirm target (closed ms ∷ polls) = do sleep ms; pure (some false)
wait_confirm target (quiet ∷ polls) = do sleep 100; feed; wait_confirm target polls
wait_confirm target (failed ms ∷ polls) = do sleep ms; pure (some false)

unfoldable pub confirm_dialog : ℕ → ℕ → ℕ → List Poll → Draw (Option Bool)
confirm_dialog width height target polls = do
  show_dialog width height target
  wait_confirm target polls

-- `wait_for_quit`; a call that still waits is not told from one that has returned.
unfoldable pub quit_loop : List Poll → Draw Unit
quit_loop [] = pure tt
quit_loop (ready ms b seq ∷ polls) =
    let later = quit_loop polls in
    sleep ms >> (if b == b'q' || b == b'Q' then pure tt else (feed >> later))
quit_loop (closed ms ∷ polls) = sleep ms
quit_loop (quiet ∷ polls) = do sleep 100; feed; quit_loop polls
quit_loop (failed ms ∷ polls) = sleep ms

unfoldable pub wait_for_quit : Bool → List Poll → Draw Unit
wait_for_quit false polls = pure tt
wait_for_quit true polls = do quit_loop polls; show_cursor
