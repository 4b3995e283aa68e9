-- ===== src/Tui/Drawn.antt =====
-- Drawings of src/tui.rs at concrete sizes, and instances of the theorems about them.
use hello_old.Base.{
  All, ℕ, ◌≡◌, refl, arith, true, false, replicate, List, [], ◌∷◌, codes, length, decimal,
}
use hello_old.Host.Watchdog.{watch, watching}
use hello_old.Tui.Pages.{browse, pages_of, pages_from, range}
use hello_old.Tui.Width.{display_width, width_from, char_width}
use hello_old.Tui.Wrap.{wrap_line}
use hello_old.Tui.Screen.{◌>>◌}
use hello_old.Tui.Story.{shown_in}
use hello_old.Tui.Story.Rows.{hint_text}
use hello_old.Tui.Story.Page.{page-shown}
use hello_old.Tui.Keys.{ready, quiet, decode}
use hello_old.Tui.Pace.Waits.{Timely, TimelyAnswer}
use hello_old.Tui.Rng
use hello_old.Tui.Toy.{thousandths}
use hello_old.Tui.Show.{Press, wrapped, show, draw_body, draw_hint, story_of}
use hello_old.Tui.Reader.{burned, navs_of, show-browse}
use hello_old.Tui.Session.{last_screens, refusal_screens}
use hello_old.Tui.Bounds.{Inside}
use hello_old.Tui.Bounds.Session.{screens-Inside}
use hello_old.Tui.Pace.{unfed_times}
use hello_old.Tui.Pace.Heartbeat.{rounds_at, screens-watched}

numbers : (decimal 0 ≡ codes "0") × (decimal 907 ≡ codes "907")
unfolding decimal
numbers = (refl, refl)

-- The generator of the screen from the state 1: its first glyph.
first_glyph : (Rng.next_u64 1 ≡ 1082269761) × ((Rng.glyph 1).0 ≡ b'y')
unfolding Rng.glyph
first_glyph = (refl, refl)

abbrev presses : List Press
presses =
    record { polls = quiet ∷ ready 40 b' ' [] ∷ []; seed = 1; answer = [] }
    ∷ record { polls = ready 55 b'q' [] ∷ []; seed = 1; answer = quiet ∷ ready 9 b'n' [] ∷ [] }
    ∷ []

abbrev shown_lines : List (List ℕ)
shown_lines = codes "Local time" ∷ codes "门" ∷ []

screens-watched_example :
    (watch [] [] 64 (
        rounds_at [] [] (
          unfed_times 50
            (last_screens thousandths 9 12 true shown_lines (codes "now") presses 7).0))
      ≡ watching)
    × (watch [] [] 64 (
          rounds_at [] [] (
            unfed_times 0
              (refusal_screens thousandths 9 12 true shown_lines (codes "now") presses 7).0))
        ≡ watching)
unfolding Timely TimelyAnswer decode
screens-watched_example =
    screens-watched thousandths [] [] 64 9 12 true shown_lines (codes "now") presses 7 50
      (
        ((omega arith, (omega arith, tt)), tt),
        (((omega arith, tt), (omega arith, omega arith)), tt),
      )
      (omega arith) (omega arith)

show-browse_example :
    (show 9 12 true shown_lines (codes "now") presses 7).1.1
    ≡ burned (browse (length (pages_of (length (wrapped 9 shown_lines)) 12)) 0 (navs_of presses)).1
show-browse_example = show-browse 9 12 true shown_lines (codes "now") presses 7

screens-Inside_example :
    All (Inside 9 12) (last_screens thousandths 9 12 true shown_lines (codes "now") presses 7).0
    × All
        (Inside 9 12)
        (refusal_screens thousandths 9 12 true shown_lines (codes "now") presses 7).0
screens-Inside_example =
    screens-Inside thousandths 9 12 true shown_lines (codes "now") presses 7 (omega arith)
      (omega arith)

abbrev seven : List (List ℕ)
seven = replicate 7 (codes "line")

-- The sixth line of the first page is under the hint.
page-shown_example :
    (shown_in 9
      ((draw_body (story_of 9 12 seven) 0 >> draw_hint (story_of 9 12 seven)) 1).0
      (false, [])).1
    ≡ hint_text 9 2
unfolding wrapped wrap_line display_width width_from char_width pages_of pages_from range
page-shown_example =
    page-shown 9 12 seven 0 5 5 (0 ∷ 1 ∷ 2 ∷ 3 ∷ 4 ∷ 5 ∷ []) (codes "line") 1 (false, [])
      (omega arith) refl refl refl
