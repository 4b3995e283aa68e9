-- ===== src/Tui/Bounds/Body.antt =====
-- Where `draw_page` of src/tui.rs moves the cursor.
use hello_old.Base.{
  get_elem?, ℕ, ◌+◌, ◌≤◌, arith, Bool-cases, inl, inr, List, [], ◌∷◌, Option, none, some, ltb,
  ltb→le,
}
use hello_old.Tui.Screen.{pure, ◌>>◌}
use hello_old.Tui.Show.{text_row, page_rows, draw_page}
use hello_old.Tui.Bounds.{
  OnScreen, ◌▹◌, bind_post, pure-OnScreen, row_start, print-OnScreen, flush-OnScreen, feed-OnScreen,
  for_range-OnScreen, if-OnScreen,
}

-- The row after the last that is drawn is not before the first.
pub page_rows-row :
    (content : List (List ℕ)) (w bottom : ℕ) (indices : List ℕ) (row r : ℕ)
    → row ≤ (page_rows content w bottom indices row r).1.1
unfolding page_rows pure ◌>>◌
page_rows-row content w bottom [] row r = omega arith
page_rows-row content w bottom (idx ∷ indices) row r = elim (Bool-cases (ltb bottom row)) [
  | inl over ↦ rw over (omega arith)
  | inr on ↦ rw on (
      omega (
        arith,
        page_rows-row content w bottom indices (row + 1)
            (text_row w row (get_elem? content idx) r).1.0,
      ))
]

module _ {width height : ℕ} (wide : 1 ≤ width) where
  text_row-OnScreen :
      (row : ℕ) (line : Option (List ℕ))
      → 1 ≤ row
      → row ≤ height
      → OnScreen width height (text_row width row line)
  unfolding text_row
  text_row-OnScreen row none low high = pure-OnScreen _
  text_row-OnScreen row (some line) low high =
      row_start row wide low high ▹ print-OnScreen _ ▹ print-OnScreen _ ▹ flush-OnScreen

  page_rows-OnScreen :
      (content : List (List ℕ)) (bottom : ℕ) (indices : List ℕ) (row : ℕ)
      → 1 ≤ row
      → bottom ≤ height
      → OnScreen width height (page_rows content width bottom indices row)
  unfolding page_rows
  page_rows-OnScreen content bottom [] row low fits = pure-OnScreen _
  page_rows-OnScreen content bottom (idx ∷ indices) row low fits =
      let rest = page_rows-OnScreen content bottom indices (row + 1) (omega arith) fits in
      if-OnScreen (ltb bottom row) (λ h. pure-OnScreen _)
        (λ h. text_row-OnScreen row _ low (omega (arith, ltb→le bottom row h)) ▹ rest)

  pub draw_page-OnScreen :
      (content : List (List ℕ)) (page : Option (List ℕ)) (top bottom : ℕ)
      → 1 ≤ top
      → bottom ≤ height
      → OnScreen width height (draw_page width content page top bottom)
  unfolding draw_page
  draw_page-OnScreen content none top bottom low fits = feed-OnScreen
  draw_page-OnScreen content (some indices) top bottom low fits =
      bind_post (λ row. top ≤ row) (page_rows content width bottom indices top) _
        (page_rows-OnScreen content bottom indices top low fits)
        (page_rows-row content width bottom indices top)
        (λ row after.
          for_range-OnScreen _ _
            (λ r from to. row_start r wide (omega arith) (omega arith) ▹ print-OnScreen _)
          ▹ feed-OnScreen)
