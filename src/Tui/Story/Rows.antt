-- ===== src/Tui/Story/Rows.antt =====
-- src/tui.rs, `draw_page` and the hint of `show`, row by row.
use hello_old.Base.{
  ℕ, zero, suc, ◌+◌, ◌≤◌, ◌<◌, ◌≡◌, ◌≢◌, refl, arith, true, false, Bool-cases, inl, inr, List, [],
  ◌∷◌, ◌++◌, Option, none, some, ◌==◌, ltb, le→ltb, length, get_elem?,
}
use hello_old.Tui.Width.{center_pad}
use hello_old.Tui.Wrap.{concat}
use hello_old.Tui.Effects.{right_of}
use hello_old.Tui.Screen.{
  emit, cursor, print, ◌>>◌, spaces, c_reset, c_dim, c_green, c_yellow, c_bg_dark,
}
use hello_old.Tui.Show.{Story, hint_of, text_row, page_rows, draw_page, draw_hint, body_bottom}
use hello_old.Tui.Bounds.Body.{page_rows-row}
use hello_old.Tui.Story.{
  shown_in, Keeps, Paints, pure-Keeps, feed-Keeps, ◌▹◌, last-Paints, Paints-then, bind-Paints,
  other_row, this_row, for_range-Keeps,
}

-- The row of a line: it is centred, in green, between dark spaces.
abbrev pub line_text : ℕ → List ℕ → List ℕ
line_text w line =
    let pad = center_pad line w in
    concat (c_bg_dark ∷ c_dim ∷ spaces pad ∷ c_green ∷ line ∷ c_reset ∷ [])
    ++ concat (c_bg_dark ∷ spaces (right_of pad line w) ∷ [])

abbrev pub hint_text : ℕ → ℕ → List ℕ
hint_text w count =
    let hint = hint_of count in
    let hp = center_pad hint w in
    concat
      (c_bg_dark ∷ c_dim ∷ spaces hp ∷ c_yellow ∷ hint ∷ spaces (right_of hp hint w) ∷ c_reset ∷ [])

not_same : (a b : ℕ) → a ≢ b → (a == b) ≡ false
not_same a b h = ground arith

same_row : (a b : ℕ) → a ≡ b → (a == b) ≡ true
same_row a b h = ground arith

text_row-Keeps : (w r row : ℕ) (line : Option (List ℕ)) → r ≢ row → Keeps row (text_row w r line)
unfolding text_row emit ◌>>◌ shown_in
text_row-Keeps w r row none away = pure-Keeps tt
text_row-Keeps w r row (some line) away =
    other_row r _ (not_same r row away) (λ g s off. rw off refl)

text_row-Paints :
    (w row : ℕ) (line : List ℕ) → Paints row (line_text w line) (text_row w row (some line))
unfolding text_row emit ◌>>◌ shown_in
text_row-Paints w row line = this_row row _ (same_row row row refl) (λ g. refl)

blank-Keeps :
    (w r row : ℕ) → r ≢ row → Keeps row (do cursor r 1; print (c_bg_dark ∷ spaces w ∷ c_reset ∷ []))
unfolding emit ◌>>◌ shown_in
blank-Keeps w r row away = other_row r _ (not_same r row away) (λ g s off. rw off refl)

-- Rows above the first are left alone, and each index that is in range has its row.
page_rows-Keeps :
    (content : List (List ℕ)) (w bottom : ℕ) (indices : List ℕ) (from row : ℕ)
    → row < from
    → Keeps row (page_rows content w bottom indices from)
unfolding page_rows
page_rows-Keeps content w bottom [] from row above = pure-Keeps from
page_rows-Keeps content w bottom (idx ∷ indices) from row above =
    elim (Bool-cases (ltb bottom from)) [
      | inl over ↦ rw over (pure-Keeps from)
      | inr on ↦ rw on (
          text_row-Keeps w from row (get_elem? content idx) (λ e. absurd (omega (arith, e)))
          ▹ page_rows-Keeps content w bottom indices (from + 1) row (omega arith))
    ]

page_rows-Paints :
    (content : List (List ℕ)) (w bottom : ℕ) (indices : List ℕ) (from k idx : ℕ) (line : List ℕ)
    → get_elem? indices k ≡ some idx
    → get_elem? content idx ≡ some line
    → from + k ≤ bottom
    → Paints (from + k) (line_text w line) (page_rows content w bottom indices from)
unfolding page_rows
page_rows-Paints content w bottom [] from k idx line at has fits = cc
page_rows-Paints content w bottom (i ∷ indices) from zero idx line at has fits =
    let here : i ≡ idx = cc in
    let first : from + 0 ≡ from = omega arith in
    let on : ltb bottom from ≡ false = le→ltb bottom from (omega arith) in
    rw (first, on, here, has)
      (Paints-then (text_row-Paints w from line)
        (page_rows-Keeps content w bottom indices (from + 1) from (omega arith)))
page_rows-Paints content w bottom (i ∷ indices) from (suc k) idx line at has fits =
    let later : from + suc k ≡ from + 1 + k = omega arith in
    let on : ltb bottom from ≡ false = le→ltb bottom from (omega arith) in
    rw (later, on)
      (last-Paints (text_row w from (get_elem? content i))
        (page_rows-Paints content w bottom indices (from + 1) k idx line at has (omega arith)))

-- The row that is passed on is after every row that was drawn.
page_rows-past :
    (content : List (List ℕ)) (w bottom : ℕ) (indices : List ℕ) (from k idx r : ℕ)
    → get_elem? indices k ≡ some idx
    → from + k ≤ bottom
    → from + k < (page_rows content w bottom indices from r).1.1
unfolding page_rows ◌>>◌
page_rows-past content w bottom [] from k idx r at fits = cc
page_rows-past content w bottom (i ∷ indices) from zero idx r at fits =
    let on : ltb bottom from ≡ false = le→ltb bottom from (omega arith) in
    let next = (text_row w from (get_elem? content i) r).1.0 in
    rw on (omega (arith, page_rows-row content w bottom indices (from + 1) next))
page_rows-past content w bottom (i ∷ indices) from (suc k) idx r at fits =
    let on : ltb bottom from ≡ false = le→ltb bottom from (omega arith) in
    let next = (text_row w from (get_elem? content i) r).1.0 in
    rw on (
      omega (arith, page_rows-past content w bottom indices (from + 1) k idx next at (omega arith)))

pub draw_page-Paints :
    (content : List (List ℕ)) (w top bottom : ℕ) (indices : List ℕ) (k idx : ℕ) (line : List ℕ)
    → get_elem? indices k ≡ some idx
    → get_elem? content idx ≡ some line
    → top + k ≤ bottom
    → Paints (top + k) (line_text w line) (draw_page w content (some indices) top bottom)
unfolding draw_page
draw_page-Paints content w top bottom indices k idx line at has fits =
    bind-Paints (λ row. top + k < row) (page_rows content w bottom indices top) _
      (page_rows-Paints content w bottom indices top k idx line at has fits)
      (λ r. page_rows-past content w bottom indices top k idx r at fits)
      (λ row after.
        for_range-Keeps row _ (λ i from. blank-Keeps w i (top + k) (λ e. absurd (omega (arith, e))))
        ▹ feed-Keeps)

pub draw_hint-Keeps : (s : Story) (row : ℕ) → body_bottom s ≢ row → Keeps row (draw_hint s)
unfolding draw_hint emit ◌>>◌ shown_in
draw_hint-Keeps s row away =
    other_row (body_bottom s) _ (not_same (body_bottom s) row away) (λ g st off. rw off refl)

pub draw_hint-Paints :
    (s : Story) → Paints (body_bottom s) (hint_text s.width (length s.pages)) (draw_hint s)
unfolding draw_hint emit ◌>>◌ shown_in
draw_hint-Paints s = this_row (body_bottom s) _ (same_row (body_bottom s) _ refl) (λ g. refl)
