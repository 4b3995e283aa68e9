-- ===== src/Tui/Pages.antt =====
-- src/tui.rs, `show`: the pages of the text and the keys that turn them.
use hello_old.Base.{
  ℕ, zero, suc, ◌+◌, ◌-◌, ◌≤◌, ◌<◌, ◌≡◌, refl, sym, ap, ◌∙◌, arith, Bool, true, false, Bool-cases,
  inl, inr, ◌⊎◌, List, [], ◌∷◌, ◌++◌, ltb, ltb→lt, ltb→le, min, length, if◌then◌else◌, All,
}
use hello_old.Tui.Wrap.{concat}

-- `(i..end).collect()`, with `n` numbers to go.
unfoldable pub range : ℕ → ℕ → List ℕ
range i zero = []
range i (suc n) = i ∷ range (i + 1) n

-- The loop that cuts the lines from `i` on into pages.
unfoldable pub pages_from : ℕ → ℕ → ℕ → ℕ → List (List ℕ)
pages_from zero len per_page i = []
pages_from (suc fuel) len per_page i = elim (ltb i len) [
  | false ↦ []
  | true ↦ let end = min (i + per_page) len in range i (end - i) ∷ pages_from fuel len per_page end
]

-- `body_bottom.saturating_sub(body_top) + 1`, for a terminal of `height` rows.
abbrev pub per_page_of : ℕ → ℕ
per_page_of height = height - 3 - 4 + 1

abbrev pub or_one_page : List (List ℕ) → List (List ℕ)
or_one_page [] = [] ∷ []
or_one_page (page ∷ pages) = page ∷ pages

unfoldable pub pages_of : ℕ → ℕ → List (List ℕ)
unfolding pages_from
pages_of len height = or_one_page (pages_from len len (per_page_of height) 0)

-- What `nav_wait` returns; for `burn`, whether the letter that follows is the right one.
pub data Nav : Type 0 where
  next_page : Nav
  prev_page : Nav
  burn : Bool → Nav

pub data Turned : Type 0 where
  stay : ℕ → Turned
  leave : Turned

-- One round of the interactive loop, on the number of pages and the page that is drawn. It returns
-- only when the burn is confirmed.
unfoldable pub turn : ℕ → ℕ → Nav → Turned
turn count page next_page = stay (if ltb (page + 1) count then page + 1 else page)
turn count page prev_page = stay (if ltb 0 page then page - 1 else page)
turn count page (burn true) = leave
turn count page (burn false) = stay page

-- The page that is drawn after some keys, and whether the loop has returned; `show` starts at 0.
unfoldable pub browse : ℕ → ℕ → List Nav → ℕ × Bool
unfolding turn
browse count page [] = (page, false)
browse count page (key ∷ keys) = elim (turn count page key) [
  | stay page' ↦ browse count page' keys
  | leave ↦ (page, true)
]

range-append : (a i j b n : ℕ) → i + a ≡ j → a + b ≡ n → range i a ++ range j b ≡ range i n
unfolding range
range-append zero i j b n e f =
    let at : j ≡ i = omega arith in let all : b ≡ n = omega arith in rw (at, all) refl
range-append (suc a) i j b zero e f = absurd (omega arith)
range-append (suc a) i j b (suc n) e f =
    ap (λ l. i ∷ l) (range-append a (i + 1) j b n (omega arith) (omega arith))

length-range : (i n : ℕ) → length (range i n) ≡ n
unfolding range
length-range i zero = refl
length-range i (suc n) = ap suc (length-range (i + 1) n)

range_empty : (i n : ℕ) → n ≡ 0 → range i n ≡ []
unfolding range
range_empty i zero e = refl
range_empty i (suc n) e = absurd (omega arith)

concat-pages_from :
    (fuel len per_page i : ℕ)
    → len - i ≤ fuel
    → 1 ≤ per_page
    → concat (pages_from fuel len per_page i) ≡ range i (len - i)
unfolding pages_from
concat-pages_from zero len per_page i h p = sym (range_empty i (len - i) (omega arith))
concat-pages_from (suc fuel) len per_page i h p = elim (Bool-cases (ltb i len)) [
  | inl more ↦
      let lt = ltb→lt i len more in
      let end = min (i + per_page) len in
      rw (pages_from, more)
        (ap (λ l. range i (end - i) ++ l) (concat-pages_from fuel len per_page end (omega arith) p)
          ∙ range-append (end - i) i end (len - end) (len - i) (omega arith) (omega arith))
  | inr done ↦
      let ge = ltb→le i len done in
      rw (pages_from, done) (sym (range_empty i (len - i) (omega arith)))
]

pages_from-fit :
    (fuel len per_page i : ℕ)
    → All (λ page. length page ≤ per_page) (pages_from fuel len per_page i)
unfolding pages_from
pages_from-fit zero len per_page i = tt
pages_from-fit (suc fuel) len per_page i = elim (Bool-cases (ltb i len)) [
  | inl more ↦
      let end = min (i + per_page) len in
      rw (pages_from, more)
        (omega (arith, length-range i (end - i)), pages_from-fit fuel len per_page end)
  | inr done ↦ rw (pages_from, done) tt
]

concat-or_one_page : (pages : List (List ℕ)) → concat (or_one_page pages) ≡ concat pages
concat-or_one_page [] = refl
concat-or_one_page (page ∷ pages) = refl

or_one_page-fit :
    (k : ℕ) (pages : List (List ℕ))
    → All (λ page. length page ≤ k) pages
    → All (λ page. length page ≤ k) (or_one_page pages) × (1 ≤ length (or_one_page pages))
or_one_page-fit k [] h = ((omega arith, tt), omega arith)
or_one_page-fit k (page ∷ pages) h = (h, omega arith)

-- The pages show every line exactly once and in order, none is longer than the room for text, and
-- there is at least one; the loop that cuts them ends.
pub pages_of_lem :
    (len height : ℕ)
    → (concat (pages_of len height) ≡ range 0 len)
      × All (λ page. length page ≤ per_page_of height) (pages_of len height)
      × (1 ≤ length (pages_of len height))
unfolding pages_of
pages_of_lem len height =
    let all : len - 0 ≡ len = omega arith in
    let cut = pages_from len len (per_page_of height) 0 in
    let (fit, some_page) =
      or_one_page-fit (per_page_of height) cut (pages_from-fit len len (per_page_of height) 0) in
    (
      concat-or_one_page cut
          ∙ concat-pages_from len len (per_page_of height) 0 (omega arith) (omega arith)
          ∙ ap (λ n. range 0 n) all,
      fit,
      some_page,
    )

stay-injective : (x y : ℕ) → stay x ≡ stay y → x ≡ y
stay-injective x y h = cc

turn-inside :
    (count page page' : ℕ) (key : Nav)
    → page < count
    → turn count page key ≡ stay page'
    → page' < count
unfolding turn
turn-inside count page page' next_page h e = elim (Bool-cases (ltb (page + 1) count)) [
  | inl more ↦
      let here = stay-injective (page + 1) page' (rw more at e) in
      omega (arith, here, ltb→lt (page + 1) count more)
  | inr last ↦ let here = stay-injective page page' (rw last at e) in omega (arith, here)
]
turn-inside count page page' prev_page h e = elim (Bool-cases (ltb 0 page)) [
  | inl more ↦ let here = stay-injective (page - 1) page' (rw more at e) in omega (arith, here)
  | inr first ↦ let here = stay-injective page page' (rw first at e) in omega (arith, here)
]
turn-inside count page page' (burn true) h e = cc
turn-inside count page page' (burn false) h e =
    let here = stay-injective page page' e in omega (arith, here)

pub data Confirms : List Nav → Type 0 where
  here : {keys : List Nav} → Confirms (burn true ∷ keys)
  later : {key : Nav} {keys : List Nav} → Confirms keys → Confirms (key ∷ keys)

-- One round, by what it does.
pub turned :
    (count page : ℕ) (key : Nav)
    → ((page' : ℕ) × (turn count page key ≡ stay page'))
      ⊎ ((turn count page key ≡ leave) × (key ≡ burn true))
unfolding turn
turned count page next_page = inl (_, refl)
turned count page prev_page = inl (_, refl)
turned count page (burn true) = inr (refl, refl)
turned count page (burn false) = inl (page, refl)

-- Whatever keys are pressed, the page that is drawn exists, and the loop has returned only if one of
-- them was a burn with the right letter.
pub browse_lem :
    (count page : ℕ) (keys : List Nav)
    → page < count
    → ((browse count page keys).0 < count) × ((browse count page keys).1 ≡ true → Confirms keys)
unfolding browse
browse_lem count page [] h = (h, λ e. cc)
browse_lem count page (key ∷ keys) h = elim (turned count page key) [
  | inl (page', e) ↦
      let (inside, confirmed) =
        browse_lem count page' keys (turn-inside count page page' key h e) in
      rw (browse, e) (inside, λ b. later (confirmed b))
  | inr (e, k) ↦ rw (browse, e) (h, λ b. rw k here)
]
