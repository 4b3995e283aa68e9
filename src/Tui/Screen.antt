-- ===== src/Tui/Screen.antt =====
-- src/tui.rs: what the drawing code does to the terminal, as a list of events in their order, and
-- the primitives that make them. A drawing draws its random glyphs from the generator that it is
-- given; `feed` is the heartbeat of the watchdog.
use hello_old.Base.{ℕ, zero, suc, ◌+◌, List, [], ◌∷◌, ◌++◌, codes, replicate}
use hello_old.Tui.Rng
use hello_old.Tui.Rng.{Rng}
use hello_old.Tui.Wrap.{concat}

pub data Out : Type 0 where
  cursor_at : ℕ → ℕ → Out
  printed : List ℕ → Out
  cleared : Out
  flushed : Out
  slept : ℕ → Out
  fed : Out

abbrev pub Draw : Type 0 → Type 0
Draw A = Rng → List Out × (Rng × A)

unfoldable pub pure : {A : Type 0} → A → Draw A
pure a r = ([], (r, a))

infixl 5 ◌>>=◌
unfoldable pub ◌>>=◌ : {A B : Type 0} → Draw A → (A → Draw B) → Draw B
(m >>= f) r = let p = m r in let q = f p.1.1 p.1.0 in (p.0 ++ q.0, q.1)

infixl 5 ◌>>◌
unfoldable pub ◌>>◌ : {A B : Type 0} → Draw A → Draw B → Draw B
(m >> k) r = let p = m r in let q = k p.1.0 in (p.0 ++ q.0, q.1)

unfoldable pub emit : Out → Draw Unit
emit e r = (e ∷ [], (r, tt))

abbrev pub cursor : ℕ → ℕ → Draw Unit
cursor row col = emit (cursor_at row col)

-- `print!` of some pieces.
abbrev pub print : List (List ℕ) → Draw Unit
print pieces = emit (printed (concat pieces))

abbrev pub flush : Draw Unit
flush = emit flushed

abbrev pub sleep : ℕ → Draw Unit
sleep ms = emit (slept ms)

abbrev pub feed : Draw Unit
feed = emit fed

unfoldable pub clear : Draw Unit
clear = do emit cleared; flush

unfoldable pub fill_line : ℕ → Draw (List ℕ)
unfolding Rng.fill
fill_line width r = let p = Rng.fill width r in ([], (p.1, p.0))

unfoldable pub draw_glyph : Draw ℕ
unfolding Rng.glyph
draw_glyph r = let p = Rng.glyph r in ([], (p.1, p.0))

unfoldable pub random : Draw ℕ
unfolding Rng.next_u64
random r = let x = Rng.next_u64 r in ([], (x, x))

-- `Rng::new` in the middle of a drawing: the seed is an argument.
unfoldable pub reseed : Rng → Draw Unit
reseed seed r = ([], (seed, tt))

-- `for i in lo..lo + n`.
unfoldable pub for_range : ℕ → ℕ → (ℕ → Draw Unit) → Draw Unit
for_range lo zero body = pure tt
for_range lo (suc n) body = do body lo; for_range (lo + 1) n body

-- `for i in (lo..lo + n).rev()`.
unfoldable pub for_rev : ℕ → ℕ → (ℕ → Draw Unit) → Draw Unit
for_rev lo zero body = pure tt
for_rev lo (suc n) body = do body (lo + n); for_rev lo n body

-- `for (i, x) in xs.iter().enumerate()`, from the index `i`.
unfoldable pub for_each : {A : Type 0} → ℕ → List A → (ℕ → A → Draw Unit) → Draw Unit
for_each i [] body = pure tt
for_each i (x ∷ xs) body = do body i x; for_each (i + 1) xs body

-- `s.repeat(n)` for a text of one character.
abbrev pub repeat : ℕ → ℕ → List ℕ
repeat c n = replicate n c

abbrev pub spaces : ℕ → List ℕ
spaces n = repeat b' ' n

abbrev pub c_reset : List ℕ
c_reset = 0x1b ∷ codes "[0m"

abbrev pub c_dim : List ℕ
c_dim = 0x1b ∷ codes "[2m"

abbrev pub c_green : List ℕ
c_green = 0x1b ∷ codes "[32m"

abbrev pub c_yellow : List ℕ
c_yellow = 0x1b ∷ codes "[33m"

abbrev pub c_bright_white : List ℕ
c_bright_white = 0x1b ∷ codes "[97m"

abbrev pub c_cyan : List ℕ
c_cyan = 0x1b ∷ codes "[36m"

abbrev pub c_red : List ℕ
c_red = 0x1b ∷ codes "[31m"

abbrev pub c_bg_dark : List ℕ
c_bg_dark = 0x1b ∷ codes "[48;5;234m"

abbrev pub c_bg_black : List ℕ
c_bg_black = 0x1b ∷ codes "[40m"

unfoldable pub hide_cursor : Draw Unit
hide_cursor = do print ((0x1b ∷ codes "[?25l") ∷ []); flush

unfoldable pub show_cursor : Draw Unit
show_cursor = do print ((0x1b ∷ codes "[?25h") ∷ []); flush
