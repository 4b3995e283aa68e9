-- ===== src/Tui/Story/Page.antt =====
-- src/tui.rs, `show`: what stands in the rows of the text when a page and the hint are drawn.
use hello_old.Base.{
  ℕ, zero, suc, ◌+◌, ◌-◌, ◌≤◌, ◌<◌, ◌≡◌, ◌≢◌, sym, subst, arith, Bool, false, Bool-cases, inl, inr,
  List, [], ◌∷◌, some, ◌==◌, ==_iff, length, get_elem?, if◌then◌else◌, All,
}
use hello_old.Tui.Pages.{per_page_of, pages_of, pages_of_lem}
use hello_old.Tui.Screen.{◌>>◌}
use hello_old.Tui.Show.{Story, story_of, wrapped, draw_body, draw_hint}
use hello_old.Tui.Story.{shown_in, Keeps, Paints, last-Paints, Paints-then}
use hello_old.Tui.Story.Rows.{
  line_text, hint_text, draw_page-Paints, draw_hint-Keeps, draw_hint-Paints,
}

-- An index that is found is one of the list.
get_elem?-lt : {A : Type 0} (xs : List A) (k : ℕ) (x : A) → get_elem? xs k ≡ some x → k < length xs
get_elem?-lt [] k x h = cc
get_elem?-lt (y ∷ xs) zero x h = omega arith
get_elem?-lt (y ∷ xs) (suc k) x h = omega (arith, get_elem?-lt xs k x h)

get_elem?-All :
    {A : Type 0} (P : A → Type 0) (xs : List A) (k : ℕ) (x : A)
    → All P xs
    → get_elem? xs k ≡ some x
    → P x
get_elem?-All P [] k x h e = cc
get_elem?-All P (y ∷ xs) zero x h e = let same : y ≡ x = cc in subst P same h.0
get_elem?-All P (y ∷ xs) (suc k) x h e = get_elem?-All P xs k x h.1 e

module _ (width height : ℕ) (lines : List (List ℕ)) (page k idx : ℕ) (indices line : List ℕ)
    (tall : 7 ≤ height)
    (on : get_elem? (pages_of (length (wrapped width lines)) height) page ≡ some indices)
    (at : get_elem? indices k ≡ some idx)
    (has : get_elem? (wrapped width lines) idx ≡ some line) where
  abbrev story : Story
  story = story_of width height lines

  -- A page has no more lines than there are rows for them.
  row_fits : 4 + k ≤ height - 3
  row_fits =
      let count = length (wrapped width lines) in
      let room =
        get_elem?-All (λ p. length p ≤ per_page_of height) (pages_of count height) page indices
          (pages_of_lem count height).1 on in
      omega (arith, room, get_elem?-lt indices k idx at)

  body-Paints : Paints (4 + k) (line_text width line) (draw_body story page)
  unfolding draw_body story_of
  body-Paints = rw on (
      draw_page-Paints (wrapped width lines) width 4 (height - 3) indices k idx line at has
        row_fits)

  hint-Paints :
      4 + k ≡ height - 3
      → Paints
          (4 + k)
          (hint_text width (length (pages_of (length (wrapped width lines)) height)))
          (draw_hint story)
  unfolding story_of
  hint-Paints e = rw e (draw_hint-Paints story)

  hint-Keeps : 4 + k ≢ height - 3 → Keeps (4 + k) (draw_hint story)
  unfolding story_of
  hint-Keeps away = draw_hint-Keeps story (4 + k) (λ e. away (sym e))

-- At a terminal of at least 7 rows, a page and the hint are drawn like this: every line of the page has
-- its row, from the fourth on, and is there when the hint has been drawn, except that the hint covers
-- the line in the row `height - 3`, the last of every full page.
pub page-shown :
    (width height : ℕ) (lines : List (List ℕ)) (page k idx : ℕ) (indices : List ℕ) (line : List ℕ)
    (r : ℕ) (before : Bool × List ℕ)
    → 7 ≤ height
    → get_elem? (pages_of (length (wrapped width lines)) height) page ≡ some indices
    → get_elem? indices k ≡ some idx
    → get_elem? (wrapped width lines) idx ≡ some line
    → (shown_in
        (4 + k)
        ((draw_body (story_of width height lines) page >> draw_hint (story_of width height lines))
          r).0
        before).1
      ≡ (if 4 + k == height - 3
          then hint_text width (length (pages_of (length (wrapped width lines)) height))
          else line_text width line)
page-shown width height lines page k idx indices line r before tall on at has =
    elim (Bool-cases (4 + k == height - 3)) [
      | inl last ↦
          let row = (==_iff (4 + k) (height - 3)).0 last in
          let p =
            last-Paints (draw_body (story_of width height lines) page)
              (hint-Paints width height lines page k idx indices line tall on at has row) in
          rw last (p.paints r before)
      | inr free ↦
          let p =
            Paints-then (body-Paints width height lines page k idx indices line tall on at has) (
              hint-Keeps width height lines page k idx indices line tall on at has
                (differ (4 + k) (height - 3) free)) in
          rw free (p.paints r before)
    ]
  where
    differ : (a b : ℕ) → (a == b) ≡ false → a ≢ b
    differ a b h = ground arith
