-- ===== src/Tui/Pace/Loops.antt =====
-- The pace of the loops of a drawing.
use hello_old.Tui.Pace.{Paced, ◌▹◌, pure-Paced, sooner}
use hello_old.Base.{ℕ, zero, suc, ◌+◌, ◌≤◌, arith, List, [], ◌∷◌}
use hello_old.Tui.Screen.{Draw, for_range, for_rev, for_each}

module _ {limit : ℕ} where
  pub for_range-Paced :
      {t : ℕ} (lo n : ℕ) {body : ℕ → Draw Unit}
      → ((i : ℕ) → Paced limit t (body i) t)
      → Paced limit t (for_range lo n body) t
  unfolding for_range
  for_range-Paced lo zero p = pure-Paced tt
  for_range-Paced lo (suc n) p = p lo ▹ for_range-Paced (lo + 1) n p

  -- A loop that runs and whose rounds end with a heartbeat.
  pub for_range-fed :
      {t : ℕ} (lo n : ℕ) {body : ℕ → Draw Unit}
      → ((i : ℕ) → Paced limit t (body i) 0)
      → t ≤ limit
      → Paced limit t (for_range lo (suc n) body) 0
  unfolding for_range
  for_range-fed {t = t} lo n p fits =
      p lo ▹ for_range-Paced (lo + 1) n (λ i. sooner t (p i) (omega arith) fits)

  pub for_rev-Paced :
      {t : ℕ} (lo n : ℕ) {body : ℕ → Draw Unit}
      → ((i : ℕ) → Paced limit t (body i) t)
      → Paced limit t (for_rev lo n body) t
  unfolding for_rev
  for_rev-Paced lo zero p = pure-Paced tt
  for_rev-Paced lo (suc n) p = p (lo + n) ▹ for_rev-Paced lo n p

  pub for_each-Paced :
      {A : Type 0} {t : ℕ} (i : ℕ) (xs : List A) {body : ℕ → A → Draw Unit}
      → ((i : ℕ) (x : A) → Paced limit t (body i x) t)
      → Paced limit t (for_each i xs body) t
  unfolding for_each
  for_each-Paced i [] p = pure-Paced tt
  for_each-Paced i (x ∷ xs) p = p i x ▹ for_each-Paced (i + 1) xs p
