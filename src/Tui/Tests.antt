-- ===== src/Tui/Tests.antt =====
-- Lines and keys of src/tui.rs, and instances of the theorems.
use hello_old.Base.{ℕ, ◌≤◌, ◌<◌, ◌≡◌, refl, arith, true, false, List, [], ◌∷◌, length, All}
use hello_old.Tui.Width.{char_width, display_width}
use hello_old.Tui.Wrap.{wrap_line, concat, wrap_line_lem}
use hello_old.Tui.Keys.{ready, quiet, Asks, decode, nav_wait, nav_wait-burn}
use hello_old.Tui.Pages.{
  Nav, next_page, prev_page, burn, Confirms, range, browse, browse_lem, pages_of, pages_of_lem,
  per_page_of,
}

-- "a", a wide character twice, and "b".
abbrev mixed : List ℕ
mixed = 97 ∷ 0x95e8 ∷ 0x95e8 ∷ 98 ∷ []

wraps : wrap_line mixed 3 ≡ (97 ∷ 0x95e8 ∷ []) ∷ (0x95e8 ∷ 98 ∷ []) ∷ []
unfolding wrap_line display_width char_width
wraps = refl

-- ESC [ 0 m takes no room.
escape_width : display_width (0x1b ∷ 0x5b ∷ 0x30 ∷ 0x6d ∷ 97 ∷ []) ≡ 1
unfolding display_width char_width
escape_width = refl

wrap_line_lem_example :
    (concat (wrap_line mixed 3) ≡ mixed)
    × All (λ chunk. display_width chunk ≤ 3) (wrap_line mixed 3)
wrap_line_lem_example = wrap_line_lem mixed 3 (omega arith)

pages_of_lem_example :
    (concat (pages_of 40 24) ≡ range 0 40)
    × All (λ page. length page ≤ per_page_of 24) (pages_of 40 24)
    × (1 ≤ length (pages_of 40 24))
pages_of_lem_example = pages_of_lem 40 24

abbrev keys : List Nav
keys = next_page ∷ next_page ∷ burn false ∷ prev_page ∷ []

browses : browse 2 0 keys ≡ (0, false)
unfolding browse
browses = refl

browse_lem_example : ((browse 2 0 keys).0 < 2) × ((browse 2 0 keys).1 ≡ true → Confirms keys)
browse_lem_example = browse_lem 2 0 keys (omega arith)

nav_wait-burn_example : Asks (quiet ∷ ready 40 120 [] ∷ ready 70 0x71 [] ∷ [])
unfolding nav_wait decode
nav_wait-burn_example = nav_wait-burn true (quiet ∷ ready 40 120 [] ∷ ready 70 0x71 [] ∷ []) refl
