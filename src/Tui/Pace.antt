-- ===== src/Tui/Pace.antt =====
-- The time that a drawing sleeps between two heartbeats, and the rules that bound it.
mod Screens
mod Sequences
mod Burn
mod Loops
pub mod Waits
mod Reading
pub mod Sleeps
pub mod Heartbeat
use hello_old.Base.{
  All-append, ℕ, zero, suc, ◌+◌, ◌≤◌, ◌≡◌, refl, ap, arith, Bool, true, false, List, [], ◌∷◌, ◌++◌,
  if◌then◌else◌, All,
}
use hello_old.Tui.Screen.{
  Out, cursor_at, printed, cleared, flushed, slept, fed, Draw, pure, ◌>>=◌, ◌>>◌, emit, fill_line,
  draw_glyph, random, reseed, for_range, for_rev, for_each,
}

-- The milliseconds since the last heartbeat after an event, when `t` had passed before it.
abbrev pub tick : ℕ → Out → ℕ
tick t (cursor_at row col) = t
tick t (printed s) = t
tick t cleared = t
tick t flushed = t
tick t (slept ms) = t + ms
tick t fed = 0

-- The same after all events.
unfoldable pub unfed : ℕ → List Out → ℕ
unfed t [] = t
unfed t (e ∷ events) = unfed (tick t e) events

-- Every value that it takes on the way.
unfoldable pub unfed_times : ℕ → List Out → List ℕ
unfed_times t [] = []
unfed_times t (e ∷ events) = tick t e ∷ unfed_times (tick t e) events

-- Begun with at most `t` unfed milliseconds, which is within `limit`, the drawing stays within `limit`
-- and ends with at most `u`.
pub record Paced {A : Type 0} (limit t : ℕ) (m : Draw A) (u : ℕ) : Type 0 where
  pub runs :
      (s r : ℕ)
      → s ≤ t
      → t ≤ limit
      → All (λ x. x ≤ limit) (unfed_times s (m r).0) × ((unfed s (m r).0 ≤ u) × (u ≤ limit))

unfed-append : (t : ℕ) (xs ys : List Out) → unfed t (xs ++ ys) ≡ unfed (unfed t xs) ys
unfolding unfed
unfed-append t [] ys = refl
unfed-append t (e ∷ xs) ys = unfed-append (tick t e) xs ys

unfed_times-append :
    (t : ℕ) (xs ys : List Out)
    → unfed_times t (xs ++ ys) ≡ unfed_times t xs ++ unfed_times (unfed t xs) ys
unfolding unfed unfed_times
unfed_times-append t [] ys = refl
unfed_times-append t (e ∷ xs) ys = ap (λ l. tick t e ∷ l) (unfed_times-append (tick t e) xs ys)

pure-silent : {A : Type 0} (a : A) (r : ℕ) → (pure a r).0 ≡ []
unfolding pure
pure-silent a r = refl

fill_line-silent : (width r : ℕ) → (fill_line width r).0 ≡ []
unfolding fill_line
fill_line-silent width r = refl

reseed-silent : (seed r : ℕ) → (reseed seed r).0 ≡ []
unfolding reseed
reseed-silent seed r = refl

module _ {limit : ℕ} where
  both :
      {v : ℕ} (s : ℕ) (xs ys : List Out)
      → All (λ x. x ≤ limit) (unfed_times s xs)
      → All (λ x. x ≤ limit) (unfed_times (unfed s xs) ys)
        × ((unfed (unfed s xs) ys ≤ v) × (v ≤ limit))
      → All (λ x. x ≤ limit) (unfed_times s (xs ++ ys)) × ((unfed s (xs ++ ys) ≤ v) × (v ≤ limit))
  both s xs ys all (all', last) =
      rw (unfed_times-append s xs ys, unfed-append s xs ys)
        (All-append (λ x. x ≤ limit) (unfed_times s xs) _ all all', last)

  pub silent : {A : Type 0} {t : ℕ} {m : Draw A} → ((r : ℕ) → (m r).0 ≡ []) → Paced limit t m t
  unfolding unfed unfed_times
  silent h = record { runs = λ s r le fits. rw (h r) (tt, (le, fits)) }

  pub pure-Paced : {A : Type 0} {t : ℕ} (a : A) → Paced limit t (pure a) t
  pure-Paced a = silent (pure-silent a)

  binds :
      {A B : Type 0} {t u v : ℕ} (m : Draw A) (f : A → Draw B)
      → Paced limit t m u
      → ((a : A) → Paced limit u (f a) v)
      → Paced limit t (m >>= f) v
  unfolding ◌>>=◌
  binds m f p q = record {
    runs = λ s r le fits.
        let (all, (last, fits')) = p.runs s r le fits in
        both s (m r).0 _ all ((q (m r).1.1).runs (unfed s (m r).0) (m r).1.0 last fits');
  }

  pub bind-Paced :
      {A B : Type 0} {t u v : ℕ} {m : Draw A} {f : A → Draw B}
      → Paced limit t m u
      → ((a : A) → Paced limit u (f a) v)
      → Paced limit t (m >>= f) v
  bind-Paced {m = m} {f = f} p q = binds m f p q

  follows :
      {A B : Type 0} {t u v : ℕ} (m : Draw A) (k : Draw B)
      → Paced limit t m u
      → Paced limit u k v
      → Paced limit t (m >> k) v
  unfolding ◌>>◌
  follows m k p q = record {
    runs = λ s r le fits.
        let (all, (last, fits')) = p.runs s r le fits in
        both s (m r).0 _ all (q.runs (unfed s (m r).0) (m r).1.0 last fits');
  }

  infixr 4 ◌▹◌
  pub ◌▹◌ :
      {A B : Type 0} {t u v : ℕ} {m : Draw A} {k : Draw B}
      → Paced limit t m u
      → Paced limit u k v
      → Paced limit t (m >> k) v
  ◌▹◌ {m = m} {k = k} p q = follows m k p q

  -- A bound at the end may be raised.
  pub relax :
      {A : Type 0} {t u : ℕ} (v : ℕ) {m : Draw A}
      → Paced limit t m u
      → u ≤ v
      → v ≤ limit
      → Paced limit t m v
  relax v p more fits = record {
    runs = λ s r le inside.
        let (all, (last, fits')) = p.runs s r le inside in (all, (omega arith, fits));
  }

  -- So may a bound at the start be lowered.
  pub sooner :
      {A : Type 0} {t u : ℕ} (v : ℕ) {m : Draw A}
      → Paced limit v m u
      → t ≤ v
      → v ≤ limit
      → Paced limit t m u
  sooner v p less fits = record { runs = λ s r le inside. p.runs s r (omega arith) fits }

  -- A drawing that ends just after a heartbeat may be followed as if `t` had passed.
  pub kept : {A : Type 0} {t : ℕ} {m : Draw A} → Paced limit t m 0 → Paced limit t m t
  kept p = record {
    runs = λ s r le inside.
        let (all, (last, fits')) = p.runs s r le inside in (all, (omega arith, inside));
  }

  emitted :
      {t u : ℕ} (e : Out)
      → ((s : ℕ) → s ≤ t → t ≤ limit → (tick s e ≤ u) × (u ≤ limit))
      → Paced limit t (emit e) u
  unfolding emit unfed unfed_times
  emitted e h = record {
    runs = λ s r le fits. let (last, fits') = h s le fits in ((omega arith, tt), (last, fits'));
  }

  pub cursor-Paced : {t : ℕ} (row col : ℕ) → Paced limit t (emit (cursor_at row col)) t
  cursor-Paced row col = emitted (cursor_at row col) (λ s le fits. (le, fits))

  pub print-Paced : {t : ℕ} (text : List ℕ) → Paced limit t (emit (printed text)) t
  print-Paced text = emitted (printed text) (λ s le fits. (le, fits))

  pub flush-Paced : {t : ℕ} → Paced limit t (emit flushed) t
  flush-Paced = emitted flushed (λ s le fits. (le, fits))

  pub cleared-Paced : {t : ℕ} → Paced limit t (emit cleared) t
  cleared-Paced = emitted cleared (λ s le fits. (le, fits))

  pub sleep-Paced : {t : ℕ} (ms : ℕ) → t + ms ≤ limit → Paced limit t (emit (slept ms)) (t + ms)
  sleep-Paced ms more = emitted (slept ms) (λ s le fits. (omega arith, more))

  pub feed-Paced : {t : ℕ} → Paced limit t (emit fed) 0
  feed-Paced = emitted fed (λ s le fits. (omega arith, omega arith))

  pub fill_line-Paced : {t : ℕ} (width : ℕ) → Paced limit t (fill_line width) t
  fill_line-Paced width = silent (fill_line-silent width)

  pub draw_glyph-Paced : {t : ℕ} → Paced limit t draw_glyph t
  unfolding draw_glyph
  draw_glyph-Paced = silent (λ r. refl)

  pub random-Paced : {t : ℕ} → Paced limit t random t
  unfolding random
  random-Paced = silent (λ r. refl)

  pub reseed-Paced : {t : ℕ} (seed : ℕ) → Paced limit t (reseed seed) t
  reseed-Paced seed = silent (reseed-silent seed)

  pub if-Paced :
      {A : Type 0} {t u : ℕ} (b : Bool) {m k : Draw A}
      → (b ≡ true → Paced limit t m u)
      → (b ≡ false → Paced limit t k u)
      → Paced limit t (if b then m else k) u
  if-Paced true p q = p refl
  if-Paced false p q = q refl
