-- ===== src/Tui/Story.antt =====
-- src/tui.rs: what a row of the screen shows after some drawing, and the rules for it.
pub mod Rows
pub mod Page
use hello_old.Base.{
  ℕ, zero, suc, ◌+◌, ◌≤◌, ◌<◌, ◌≡◌, ◌≢◌, refl, ap, ◌∙◌, arith, Bool, true, false, Bool-cases, inl,
  inr, List, [], ◌∷◌, ◌++◌, ◌==◌, if◌then◌else◌,
}
use hello_old.Tui.Screen.{
  Out, cursor_at, printed, cleared, flushed, slept, fed, Draw, pure, ◌>>=◌, ◌>>◌, emit, for_range,
}

-- Whether the cursor is in the row, and what was printed there since it last came to it.
abbrev pub shows : ℕ → Out → Bool × List ℕ → Bool × List ℕ
shows row (cursor_at r col) s = if r == row then (true, []) else (false, s.1)
shows row (printed text) s = (s.0, if s.0 then s.1 ++ text else s.1)
shows row cleared s = (false, [])
shows row flushed s = s
shows row (slept ms) s = s
shows row fed s = s

unfoldable pub shown_in : ℕ → List Out → Bool × List ℕ → Bool × List ℕ
shown_in row [] s = s
shown_in row (e ∷ es) s = shown_in row es (shows row e s)

shown_in-append :
    (row : ℕ) (xs ys : List Out) (s : Bool × List ℕ)
    → shown_in row (xs ++ ys) s ≡ shown_in row ys (shown_in row xs s)
unfolding shown_in
shown_in-append row [] ys s = refl
shown_in-append row (x ∷ xs) ys s = shown_in-append row xs ys (shows row x s)

-- A drawing leaves the row as it is.
pub record Keeps {A : Type 0} (row : ℕ) (m : Draw A) : Type 0 where
  pub same : (r : ℕ) (s : Bool × List ℕ) → (shown_in row (m r).0 s).1 ≡ s.1

-- After a drawing the row shows `text`.
pub record Paints {A : Type 0} (row : ℕ) (text : List ℕ) (m : Draw A) : Type 0 where
  pub paints : (r : ℕ) (s : Bool × List ℕ) → (shown_in row (m r).0 s).1 ≡ text

module _ {row : ℕ} where
  pub pure-Keeps : {A : Type 0} (a : A) → Keeps row (pure a)
  unfolding pure shown_in
  pure-Keeps a = record { same = λ r s. refl }

  pub flush-Keeps : Keeps row (emit flushed)
  unfolding emit shown_in
  flush-Keeps = record { same = λ r s. refl }

  pub feed-Keeps : Keeps row (emit fed)
  unfolding emit shown_in
  feed-Keeps = record { same = λ r s. refl }

  then-Keeps :
      {A B : Type 0} (m : Draw A) (k : Draw B) → Keeps row m → Keeps row k → Keeps row (m >> k)
  unfolding ◌>>◌
  then-Keeps m k p q = record {
    same = λ r s.
        ap (λ (x : Bool × List ℕ). x.1) (shown_in-append row (m r).0 _ s)
        ∙ q.same (m r).1.0 (shown_in row (m r).0 s)
        ∙ p.same r s;
  }

  after-Paints :
      {A B : Type 0} {text : List ℕ} (m : Draw A) (k : Draw B)
      → Paints row text k
      → Paints row text (m >> k)
  unfolding ◌>>◌
  after-Paints m k q = record {
    paints = λ r s.
        ap (λ (x : Bool × List ℕ). x.1) (shown_in-append row (m r).0 _ s)
        ∙ q.paints (m r).1.0 (shown_in row (m r).0 s);
  }

  first-Paints :
      {A B : Type 0} {text : List ℕ} (m : Draw A) (k : Draw B)
      → Paints row text m
      → Keeps row k
      → Paints row text (m >> k)
  unfolding ◌>>◌
  first-Paints m k p q = record {
    paints = λ r s.
        ap (λ (x : Bool × List ℕ). x.1) (shown_in-append row (m r).0 _ s)
        ∙ q.same (m r).1.0 (shown_in row (m r).0 s)
        ∙ p.paints r s;
  }

  infixr 4 ◌▹◌
  pub ◌▹◌ :
      {A B : Type 0} {m : Draw A} {k : Draw B} → Keeps row m → Keeps row k → Keeps row (m >> k)
  ◌▹◌ {m = m} {k = k} p q = then-Keeps m k p q

  -- What is drawn last is what is seen.
  pub last-Paints :
      {A B : Type 0} {text : List ℕ} (m : Draw A) {k : Draw B}
      → Paints row text k
      → Paints row text (m >> k)
  last-Paints m {k = k} q = after-Paints m k q

  pub Paints-then :
      {A B : Type 0} {text : List ℕ} {m : Draw A} {k : Draw B}
      → Paints row text m
      → Keeps row k
      → Paints row text (m >> k)
  Paints-then {m = m} {k = k} p q = first-Paints m k p q

  -- The rest may depend on a result that satisfies `P`.
  pub bind-Paints :
      {A B : Type 0} {text : List ℕ} (P : A → Type 0) (m : Draw A) (f : A → Draw B)
      → Paints row text m
      → ((r : ℕ) → P (m r).1.1)
      → ((a : A) → P a → Keeps row (f a))
      → Paints row text (m >>= f)
  unfolding ◌>>=◌
  bind-Paints P m f p post q = record {
    paints = λ r s.
        ap (λ (x : Bool × List ℕ). x.1) (shown_in-append row (m r).0 _ s)
        ∙ (q (m r).1.1 (post r)).same (m r).1.0 (shown_in row (m r).0 s)
        ∙ p.paints r s;
  }

  -- A row that is begun elsewhere, and one that is begun here, with what is printed in it.
  pub other_row :
      {A : Type 0} (r : ℕ) (m : Draw A)
      → (r == row) ≡ false
      → ((g : ℕ) → (s : Bool × List ℕ) → s.0 ≡ false → (shown_in row (m g).0 s).1 ≡ s.1)
      → Keeps row (emit (cursor_at r 1) >> m)
  unfolding emit ◌>>◌ shown_in
  other_row r m away h = record { same = λ g s. rw away (h g (false, s.1) refl) }

  pub this_row :
      {A : Type 0} {text : List ℕ} (r : ℕ) (m : Draw A)
      → (r == row) ≡ true
      → ((g : ℕ) → (shown_in row (m g).0 (true, [])).1 ≡ text)
      → Paints row text (emit (cursor_at r 1) >> m)
  unfolding emit ◌>>◌ shown_in
  this_row r m here h = record { paints = λ g s. rw here (h g) }

  pub for_range-Keeps :
      (lo n : ℕ) {body : ℕ → Draw Unit}
      → ((i : ℕ) → lo ≤ i → Keeps row (body i))
      → Keeps row (for_range lo n body)
  unfolding for_range
  for_range-Keeps lo zero p = pure-Keeps tt
  for_range-Keeps lo (suc n) p =
      p lo (omega arith) ▹ for_range-Keeps (lo + 1) n (λ i from. p i (omega arith))
