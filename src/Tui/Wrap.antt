-- ===== src/Tui/Wrap.antt =====
-- src/tui.rs, `wrap_line`.
use hello_old.Base.{
  append_assoc, append_nil, ℕ, ◌+◌, ◌≤◌, ◌≡◌, refl, ap, ◌∙◌, arith, Bool, true, false, Bool-cases,
  inl, inr, not, ◌&&◌, ◌||◌, List, [], ◌∷◌, ◌++◌, ◌==◌, ltb, leb, ltb→le, if◌then◌else◌, All,
}
use hello_old.Tui.Width.{
  char_width, raw_width, display_width, char_width_bounds, display_width-le-raw_width,
}

abbrev pub is_empty : List ℕ → Bool
is_empty [] = true
is_empty (c ∷ chars) = false

-- The loop, with the chunk `cur` of width `cur_w` begun.
unfoldable pub wrap_loop : ℕ → List ℕ → List ℕ → ℕ → List (List ℕ)
wrap_loop width [] cur cur_w = if is_empty cur then [] else cur ∷ []
wrap_loop width (c ∷ chars) cur cur_w =
    let cw = char_width c in
    if ltb width (cur_w + cw) && not (is_empty cur)
    then cur ∷ wrap_loop width chars (c ∷ []) cw
    else wrap_loop width chars (cur ++ c ∷ []) (cur_w + cw)

unfoldable pub wrap_line : List ℕ → ℕ → List (List ℕ)
unfolding wrap_loop
wrap_line line width =
    if width == 0 || leb (display_width line) width then line ∷ [] else wrap_loop width line [] 0

abbrev pub concat : List (List ℕ) → List ℕ
concat [] = []
concat (chunk ∷ chunks) = chunk ++ concat chunks

raw_width-append : (a b : List ℕ) → raw_width (a ++ b) ≡ raw_width a + raw_width b
unfolding raw_width
raw_width-append [] b = omega arith
raw_width-append (c ∷ a) b = omega (arith, raw_width-append a b)

raw_width-one : (c : ℕ) → raw_width (c ∷ []) ≡ char_width c
unfolding raw_width
raw_width-one c = omega arith

raw_width-nil : raw_width [] ≡ 0
unfolding raw_width
raw_width-nil = refl

whole_fits : (width w : ℕ) → 2 ≤ width → (width == 0 || leb w width) ≡ true → w ≤ width
whole_fits width w wide h = ground arith

concat-wrap_loop :
    (width : ℕ) (chars cur : List ℕ) (cur_w : ℕ)
    → concat (wrap_loop width chars cur cur_w) ≡ cur ++ chars
unfolding wrap_loop
concat-wrap_loop width [] [] cur_w = refl
concat-wrap_loop width [] (x ∷ cur) cur_w = refl
concat-wrap_loop width (c ∷ chars) cur cur_w =
    elim (Bool-cases (ltb width (cur_w + char_width c) && not (is_empty cur))) [
      | inl cut ↦ rw cut (ap (λ l. cur ++ l) (concat-wrap_loop width chars (c ∷ []) (char_width c)))
      | inr on ↦ rw on (
          concat-wrap_loop width chars (cur ++ c ∷ []) (cur_w + char_width c)
          ∙ append_assoc cur (c ∷ []) chars)
    ]

concat-wrap_line : (line : List ℕ) (width : ℕ) → concat (wrap_line line width) ≡ line
unfolding wrap_line
concat-wrap_line line width = elim (Bool-cases (width == 0 || leb (display_width line) width)) [
  | inl whole ↦ rw whole (append_nil line)
  | inr parts ↦ rw parts (concat-wrap_loop width line [] 0)
]

-- A chunk that goes on stays within the width.
goes_on :
    (width : ℕ) (cur : List ℕ) (cur_w cw : ℕ)
    → 2 ≤ width
    → cw ≤ 2
    → raw_width cur ≡ cur_w
    → (ltb width (cur_w + cw) && not (is_empty cur)) ≡ false
    → cur_w + cw ≤ width
unfolding raw_width
goes_on width [] cur_w cw wide small e on = omega arith
goes_on width (x ∷ cur) cur_w cw wide small e on = elim (Bool-cases (ltb width (cur_w + cw))) [
  | inl over ↦ cc
  | inr fits ↦ ltb→le _ _ fits
]

wrap_loop-fits :
    (width : ℕ) (chars cur : List ℕ) (cur_w : ℕ)
    → 2 ≤ width
    → raw_width cur ≡ cur_w
    → cur_w ≤ width
    → All (λ chunk. raw_width chunk ≤ width) (wrap_loop width chars cur cur_w)
unfolding wrap_loop
wrap_loop-fits width [] [] cur_w wide e h = tt
wrap_loop-fits width [] (x ∷ cur) cur_w wide e h = (omega (arith, e), tt)
wrap_loop-fits width (c ∷ chars) cur cur_w wide e h =
    let cw = char_width c in
    let (_, small) = char_width_bounds c in
    elim (Bool-cases (ltb width (cur_w + cw) && not (is_empty cur))) [
      | inl cut ↦ rw cut (
        omega (arith, e),
        wrap_loop-fits width chars (c ∷ []) cw wide (raw_width-one c) (omega arith),
      )
      | inr on ↦ rw on (
          wrap_loop-fits width chars (cur ++ c ∷ []) (cur_w + cw) wide
            (omega (arith, raw_width-append cur (c ∷ []), raw_width-one c))
            (goes_on width cur cur_w cw wide small e on))
    ]

display_width-fits :
    (width : ℕ) (chunks : List (List ℕ))
    → All (λ chunk. raw_width chunk ≤ width) chunks
    → All (λ chunk. display_width chunk ≤ width) chunks
display_width-fits width [] h = tt
display_width-fits width (chunk ∷ chunks) (h, hs) =
    (omega (arith, display_width-le-raw_width chunk), display_width-fits width chunks hs)

wrap_line-fits :
    (line : List ℕ) (width : ℕ)
    → 2 ≤ width
    → All (λ chunk. display_width chunk ≤ width) (wrap_line line width)
unfolding wrap_line
wrap_line-fits line width wide = elim (Bool-cases (width == 0 || leb (display_width line) width)) [
  | inl whole ↦ rw whole (whole_fits width (display_width line) wide whole, tt)
  | inr parts ↦
      rw parts (
        display_width-fits width _
          (wrap_loop-fits width line [] 0 wide raw_width-nil (omega arith)))
]

-- Wrapping loses nothing and moves nothing: the chunks of a line, put together, are the line. On a
-- terminal of at least two columns every chunk fits it, wide characters and escape sequences included.
pub wrap_line_lem :
    (line : List ℕ) (width : ℕ)
    → 2 ≤ width
    → (concat (wrap_line line width) ≡ line)
      × All (λ chunk. display_width chunk ≤ width) (wrap_line line width)
wrap_line_lem line width wide = (concat-wrap_line line width, wrap_line-fits line width wide)
