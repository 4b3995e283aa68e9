-- ===== src/Tui/Bounds.antt =====
-- Where a drawing moves the cursor, and the rules that bound it.
mod Screens
pub mod Body
mod Reading
pub mod Session
use hello_old.Base.{
  ℕ, zero, suc, ◌+◌, ◌≤◌, ◌<◌, ◌≡◌, refl, arith, Bool, true, false, List, [], ◌∷◌, ◌++◌,
  if◌then◌else◌, All, All-append, length,
}
use hello_old.Tui.Screen.{
  Out, cursor_at, printed, cleared, flushed, slept, fed, Draw, pure, ◌>>=◌, ◌>>◌, emit, fill_line,
  draw_glyph, random, reseed, for_range, for_rev, for_each,
}

-- An event keeps to a screen of `width` columns and `height` rows, which count from 1.
abbrev pub Inside : ℕ → ℕ → Out → Type 0
Inside width height (cursor_at row col) = (1 ≤ row) × ((row ≤ height) × ((1 ≤ col) × (col ≤ width)))
Inside width height (printed s) = Unit
Inside width height cleared = Unit
Inside width height flushed = Unit
Inside width height (slept ms) = Unit
Inside width height fed = Unit

pub record OnScreen {A : Type 0} (width height : ℕ) (m : Draw A) : Type 0 where
  pub events : (r : ℕ) → All (Inside width height) (m r).0

silent-events : {A : Type 0} (a : A) (r : ℕ) → (pure a r).0 ≡ []
unfolding pure
silent-events a r = refl

fill_line-events : (width r : ℕ) → (fill_line width r).0 ≡ []
unfolding fill_line
fill_line-events width r = refl

reseed-events : (seed r : ℕ) → (reseed seed r).0 ≡ []
unfolding reseed
reseed-events seed r = refl

module _ {width height : ℕ} where
  silent : {A : Type 0} {m : Draw A} → ((r : ℕ) → (m r).0 ≡ []) → OnScreen width height m
  silent h = record { events = λ r. rw (h r) tt }

  pub pure-OnScreen : {A : Type 0} (a : A) → OnScreen width height (pure a)
  pure-OnScreen a = silent (silent-events a)

  binds :
      {A B : Type 0} (m : Draw A) (f : A → Draw B)
      → OnScreen width height m
      → ((a : A) → OnScreen width height (f a))
      → OnScreen width height (m >>= f)
  unfolding ◌>>=◌
  binds m f p q = record {
    events = λ r.
        All-append (Inside width height) (m r).0 _ (p.events r) ((q (m r).1.1).events (m r).1.0);
  }

  pub bind-OnScreen :
      {A B : Type 0} {m : Draw A} {f : A → Draw B}
      → OnScreen width height m
      → ((a : A) → OnScreen width height (f a))
      → OnScreen width height (m >>= f)
  bind-OnScreen {m = m} {f = f} p q = binds m f p q

  -- The same when only the results that satisfy `P` matter.
  pub bind_post :
      {A B : Type 0} (P : A → Type 0) (m : Draw A) (f : A → Draw B)
      → OnScreen width height m
      → ((r : ℕ) → P (m r).1.1)
      → ((a : A) → P a → OnScreen width height (f a))
      → OnScreen width height (m >>= f)
  unfolding ◌>>=◌
  bind_post P m f p post q = record {
    events = λ r.
        All-append (Inside width height) (m r).0 _ (p.events r)
          ((q (m r).1.1 (post r)).events (m r).1.0);
  }

  follows :
      {A B : Type 0} (m : Draw A) (k : Draw B)
      → OnScreen width height m
      → OnScreen width height k
      → OnScreen width height (m >> k)
  unfolding ◌>>◌
  follows m k p q = record {
    events = λ r. All-append (Inside width height) (m r).0 _ (p.events r) (q.events (m r).1.0);
  }

  infixr 4 ◌▹◌
  pub ◌▹◌ :
      {A B : Type 0} {m : Draw A} {k : Draw B}
      → OnScreen width height m
      → OnScreen width height k
      → OnScreen width height (m >> k)
  ◌▹◌ {m = m} {k = k} p q = follows m k p q

  pub emitted : (e : Out) → Inside width height e → OnScreen width height (emit e)
  unfolding emit
  emitted e h = record { events = λ r. (h, tt) }

  -- A move to the start of a row.
  pub row_start :
      (row : ℕ)
      → 1 ≤ width
      → 1 ≤ row
      → row ≤ height
      → OnScreen width height (emit (cursor_at row 1))
  row_start row wide low high = emitted (cursor_at row 1) (low, (high, (omega arith, wide)))

  pub print-OnScreen : (s : List ℕ) → OnScreen width height (emit (printed s))
  print-OnScreen s = emitted (printed s) tt

  pub flush-OnScreen : OnScreen width height (emit flushed)
  flush-OnScreen = emitted flushed tt

  pub cleared-OnScreen : OnScreen width height (emit cleared)
  cleared-OnScreen = emitted cleared tt

  pub sleep-OnScreen : (ms : ℕ) → OnScreen width height (emit (slept ms))
  sleep-OnScreen ms = emitted (slept ms) tt

  pub feed-OnScreen : OnScreen width height (emit fed)
  feed-OnScreen = emitted fed tt

  pub fill_line-OnScreen : (n : ℕ) → OnScreen width height (fill_line n)
  fill_line-OnScreen n = silent (fill_line-events n)

  pub draw_glyph-OnScreen : OnScreen width height draw_glyph
  unfolding draw_glyph
  draw_glyph-OnScreen = silent (λ r. refl)

  pub if-OnScreen :
      {A : Type 0} (b : Bool) {m k : Draw A}
      → (b ≡ true → OnScreen width height m)
      → (b ≡ false → OnScreen width height k)
      → OnScreen width height (if b then m else k)
  if-OnScreen true p q = p refl
  if-OnScreen false p q = q refl

  -- The rules of the loops tell the body which round it is.
  pub for_range-OnScreen :
      (lo n : ℕ) {body : ℕ → Draw Unit}
      → ((i : ℕ) → lo ≤ i → i < lo + n → OnScreen width height (body i))
      → OnScreen width height (for_range lo n body)
  unfolding for_range
  for_range-OnScreen lo zero p = pure-OnScreen tt
  for_range-OnScreen lo (suc n) p =
      p lo (omega arith) (omega arith)
      ▹ for_range-OnScreen (lo + 1) n (λ i from to. p i (omega arith) (omega arith))

  pub for_rev-OnScreen :
      (lo n : ℕ) {body : ℕ → Draw Unit}
      → ((i : ℕ) → lo ≤ i → i < lo + n → OnScreen width height (body i))
      → OnScreen width height (for_rev lo n body)
  unfolding for_rev
  for_rev-OnScreen lo zero p = pure-OnScreen tt
  for_rev-OnScreen lo (suc n) p =
      p (lo + n) (omega arith) (omega arith)
      ▹ for_rev-OnScreen lo n (λ i from to. p i from (omega arith))

  pub for_each-OnScreen :
      {A : Type 0} (i : ℕ) (xs : List A) {body : ℕ → A → Draw Unit}
      → ((j : ℕ) (x : A) → i ≤ j → j < i + length xs → OnScreen width height (body j x))
      → OnScreen width height (for_each i xs body)
  unfolding for_each
  for_each-OnScreen i [] p = pure-OnScreen tt
  for_each-OnScreen i (x ∷ xs) p =
      p i x (omega arith) (omega arith)
      ▹ for_each-OnScreen (i + 1) xs (λ j y from to. p j y (omega arith) (omega arith))
