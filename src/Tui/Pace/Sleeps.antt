-- ===== src/Tui/Pace/Sleeps.antt =====
-- How long the drawing functions of src/tui.rs sleep at least.
use hello_old.Base.{ℕ, zero, suc, ◌+◌, ◌*◌, ◌/◌, ◌≤◌, ◌≡◌, arith, List, [], ◌∷◌, ◌++◌, length}
use hello_old.Tui.Screen.{
  Out, cursor_at, printed, cleared, flushed, slept, fed, Draw, ◌>>=◌, ◌>>◌, emit, for_range,
  for_rev, for_each,
}
use hello_old.Tui.Panel.{F32}
use hello_old.Tui.Burning.{
  warning, typing_frame, blink, countdown, burn_with_progress, measure_labels,
}

abbrev pub pause : Out → ℕ
pause (cursor_at row col) = 0
pause (printed text) = 0
pause cleared = 0
pause flushed = 0
pause (slept ms) = ms
pause fed = 0

-- The milliseconds that the events sleep.
abbrev pub slept_in : List Out → ℕ
slept_in [] = 0
slept_in (e ∷ es) = pause e + slept_in es

slept_in-append : (xs ys : List Out) → slept_in (xs ++ ys) ≡ slept_in xs + slept_in ys
slept_in-append [] ys = omega arith
slept_in-append (x ∷ xs) ys = omega (arith, slept_in-append xs ys)

-- A drawing sleeps `n` milliseconds at least.
pub record Sleeps {A : Type 0} (n : ℕ) (m : Draw A) : Type 0 where
  pub lasts : (r : ℕ) → n ≤ slept_in (m r).0

any : {A : Type 0} {m : Draw A} → Sleeps 0 m
any = record { lasts = λ r. omega arith }

sleep-Sleeps : (ms : ℕ) → Sleeps ms (emit (slept ms))
unfolding emit
sleep-Sleeps ms = record { lasts = λ r. omega arith }

binds :
    {A B : Type 0} {n k : ℕ} (m : Draw A) (f : A → Draw B)
    → Sleeps n m
    → ((a : A) → Sleeps k (f a))
    → Sleeps (n + k) (m >>= f)
unfolding ◌>>=◌
binds m f p q = record {
  lasts = λ r.
      let first = p.lasts r in
      let second = (q (m r).1.1).lasts (m r).1.0 in omega (arith, slept_in-append (m r).0 _);
}

bind-Sleeps :
    {A B : Type 0} {n k : ℕ} {m : Draw A} {f : A → Draw B}
    → Sleeps n m
    → ((a : A) → Sleeps k (f a))
    → Sleeps (n + k) (m >>= f)
bind-Sleeps {m = m} {f = f} p q = binds m f p q

follows :
    {A B : Type 0} {n k : ℕ} (m : Draw A) (m' : Draw B)
    → Sleeps n m
    → Sleeps k m'
    → Sleeps (n + k) (m >> m')
unfolding ◌>>◌
follows m m' p q = record {
  lasts = λ r.
      let first = p.lasts r in
      let second = q.lasts (m r).1.0 in omega (arith, slept_in-append (m r).0 _);
}

infixr 4 ◌▹◌
◌▹◌ :
    {A B : Type 0} {n k : ℕ} {m : Draw A} {m' : Draw B}
    → Sleeps n m
    → Sleeps k m'
    → Sleeps (n + k) (m >> m')
◌▹◌ {m = m} {m' = m'} p q = follows m m' p q

at_least : {A : Type 0} {n : ℕ} (k : ℕ) {m : Draw A} → Sleeps n m → k ≤ n → Sleeps k m
at_least k p fewer = record { lasts = λ r. let more = p.lasts r in omega arith }

for_range-Sleeps :
    {n : ℕ} (lo count : ℕ) {body : ℕ → Draw Unit}
    → ((i : ℕ) → Sleeps n (body i))
    → Sleeps (count * n) (for_range lo count body)
unfolding for_range
for_range-Sleeps {n = n} lo zero p = at_least (0 * n) any (omega arith)
for_range-Sleeps {n = n} lo (suc count) p =
    at_least (suc count * n) (p lo ▹ for_range-Sleeps (lo + 1) count p) (omega arith)

for_rev-Sleeps :
    {n : ℕ} (lo count : ℕ) {body : ℕ → Draw Unit}
    → ((i : ℕ) → Sleeps n (body i))
    → Sleeps (count * n) (for_rev lo count body)
unfolding for_rev
for_rev-Sleeps {n = n} lo zero p = at_least (0 * n) any (omega arith)
for_rev-Sleeps {n = n} lo (suc count) p =
    at_least (suc count * n) (p (lo + count) ▹ for_rev-Sleeps lo count p) (omega arith)

for_each-Sleeps :
    {A : Type 0} {n : ℕ} (i : ℕ) (xs : List A) {body : ℕ → A → Draw Unit}
    → ((i : ℕ) (x : A) → Sleeps n (body i x))
    → Sleeps (length xs * n) (for_each i xs body)
unfolding for_each
for_each-Sleeps {n = n} i [] p = at_least (0 * n) any (omega arith)
for_each-Sleeps {n = n} i (x ∷ xs) p =
    at_least (length (x ∷ xs) * n) (p i x ▹ for_each-Sleeps (i + 1) xs p) (omega arith)

typing_frame-Sleeps : (width row i : ℕ) → Sleeps 30 (typing_frame width row i)
unfolding typing_frame
typing_frame-Sleeps width row i =
    any
    ▹ bind-Sleeps any (λ left.
      bind-Sleeps any (λ right. bind-Sleeps any (λ line. any ▹ any ▹ any ▹ sleep-Sleeps 30 ▹ any)))

blink-Sleeps : (width row : ℕ) → Sleeps 200 (blink width row)
unfolding blink
blink-Sleeps width row =
    any ▹ any ▹ any ▹ any ▹ sleep-Sleeps 110 ▹ any ▹ any ▹ any ▹ any ▹ sleep-Sleeps 90 ▹ any

module _ (f : F32) where
  countdown-Sleeps : (width height i : ℕ) → Sleeps 60 (countdown f width height i)
  unfolding countdown
  countdown-Sleeps width height i = for_range-Sleeps {n = 10} 0 6 (λ step. any ▹ sleep-Sleeps 10)

  -- `burn_with_progress` sleeps at least 4.7 seconds.
  pub burn_with_progress-Sleeps :
      (width height : ℕ) → Sleeps 4700 (burn_with_progress f width height)
  unfolding burn_with_progress
  burn_with_progress-Sleeps width height =
      at_least 4700
        (any
          ▹ any
          ▹ for_each-Sleeps 0 warning
              (λ i c. for_range-Sleeps 0 2 (λ n. typing_frame-Sleeps width (height / 2) i))
          ▹ any
          ▹ for_range-Sleeps 0 10 (λ n. blink-Sleeps width (height / 2 + 2))
          ▹ any
          ▹ any
          ▹ for_rev-Sleeps 0 (length measure_labels) (countdown-Sleeps width height)
          ▹ any
          ▹ sleep-Sleeps 300
          ▹ any)
        (omega arith)
