-- ===== src/Meta/Parts.antt =====
-- Trimming, splitting and prefixes, on texts that are put together.
use hello_old.Base.{
  All-append, ℕ, ◌≡◌, refl, ap, ◌∙◌, arith, Bool, true, false, Bool-cases, inl, inr, not, ◌&&◌,
  List, [], ◌∷◌, ◌++◌, some, ◌==◌, All,
}
use hello_old.Meta.Text.{
  is_whitespace, is_digit, trim_start, trim_end, trim, unless_last, split, onto_first, strip_prefix,
}

same : (c : ℕ) → (c == c) ≡ true
same c = ground arith

abbrev pub Free : (ℕ → Bool) → List ℕ → Type 0
Free p s = All (λ c. p c ≡ false) s

-- A test of a literal.
abbrev pub none_is : (ℕ → Bool) → List ℕ → Bool
none_is p [] = true
none_is p (c ∷ s) = not (p c) && none_is p s

pub none_is-Free : (p : ℕ → Bool) (s : List ℕ) → none_is p s ≡ true → Free p s
none_is-Free p [] h = tt
none_is-Free p (c ∷ s) h = let (first, rest) = parts (p c) h in (first, none_is-Free p s rest)
  where
    parts : (b : Bool) → (not b && none_is p s) ≡ true → (b ≡ false) × (none_is p s ≡ true)
    parts true h = cc
    parts false h = (refl, h)

pub Free-append : (p : ℕ → Bool) (s u : List ℕ) → Free p s → Free p u → Free p (s ++ u)
Free-append p s u h k = All-append (λ c. p c ≡ false) s u h k

pub digits-Free :
    (p : ℕ → Bool) (s : List ℕ)
    → ((c : ℕ) → is_digit c ≡ true → p c ≡ false)
    → All (λ c. is_digit c ≡ true) s
    → Free p s
digits-Free p [] f h = tt
digits-Free p (c ∷ s) f h = (f c h.0, digits-Free p s f h.1)

pub digit-is_whitespace : (c : ℕ) → is_digit c ≡ true → is_whitespace c ≡ false
unfolding is_whitespace
digit-is_whitespace c h = ground arith

pub digit-comma : (c : ℕ) → is_digit c ≡ true → (c == b',') ≡ false
digit-comma c h = ground arith

module _ (p : ℕ → Bool) where
  pub trim_start-keep : (c : ℕ) (s : List ℕ) → p c ≡ false → trim_start p (c ∷ s) ≡ c ∷ s
  unfolding trim_start
  trim_start-keep c s h = rw h refl

  pub trim_start-drop : (c : ℕ) (s : List ℕ) → p c ≡ true → trim_start p (c ∷ s) ≡ trim_start p s
  unfolding trim_start
  trim_start-drop c s h = rw h refl

  unless_last-cons :
      (b : Bool) (x c : ℕ) (s : List ℕ) → unless_last b x (s ++ c ∷ []) ≡ x ∷ (s ++ c ∷ [])
  unless_last-cons true x c [] = refl
  unless_last-cons false x c [] = refl
  unless_last-cons true x c (y ∷ s) = refl
  unless_last-cons false x c (y ∷ s) = refl

  unless_last-false : (x : ℕ) (s : List ℕ) → unless_last false x s ≡ x ∷ s
  unless_last-false x [] = refl
  unless_last-false x (y ∷ s) = refl

  pub trim_end-keep : (s : List ℕ) (c : ℕ) → p c ≡ false → trim_end p (s ++ c ∷ []) ≡ s ++ c ∷ []
  unfolding trim_end
  trim_end-keep [] c h = rw h refl
  trim_end-keep (x ∷ s) c h =
      ap (λ l. unless_last (p x) x l) (trim_end-keep s c h) ∙ unless_last-cons (p x) x c s

  pub trim_end-drop : (s : List ℕ) (c : ℕ) → p c ≡ true → trim_end p (s ++ c ∷ []) ≡ trim_end p s
  unfolding trim_end
  trim_end-drop [] c h = rw h refl
  trim_end-drop (x ∷ s) c h = ap (λ l. unless_last (p x) x l) (trim_end-drop s c h)

  trim_start-Free : (s : List ℕ) → Free p s → trim_start p s ≡ s
  unfolding trim_start
  trim_start-Free [] h = refl
  trim_start-Free (c ∷ s) h = trim_start-keep c s h.0

  trim_end-Free : (s : List ℕ) → Free p s → trim_end p s ≡ s
  unfolding trim_end
  trim_end-Free [] h = refl
  trim_end-Free (c ∷ s) h = rw (h.0, trim_end-Free s h.1) (unless_last-false c s)

-- A text without white space is not trimmed, nor is one that begins and ends with other characters.
pub trim-Free : (s : List ℕ) → Free is_whitespace s → trim s ≡ s
unfolding trim
trim-Free s h =
    ap (λ l. trim_end is_whitespace l) (trim_start-Free is_whitespace s h)
    ∙ trim_end-Free is_whitespace s h

pub trim-ends :
    (c : ℕ) (s : List ℕ) (d : ℕ)
    → is_whitespace c ≡ false
    → is_whitespace d ≡ false
    → trim (c ∷ (s ++ d ∷ [])) ≡ c ∷ (s ++ d ∷ [])
unfolding trim
trim-ends c s d first last =
    ap (λ l. trim_end is_whitespace l) (trim_start-keep is_whitespace c (s ++ d ∷ []) first)
    ∙ trim_end-keep is_whitespace (c ∷ s) d last

module _ (sep : ℕ) where
  pub split-Free : (s : List ℕ) → Free (λ c. c == sep) s → split sep s ≡ s ∷ []
  unfolding split
  split-Free [] h = refl
  split-Free (c ∷ s) h = rw h.0 (ap (λ l. onto_first c l) (split-Free s h.1))

  pub split-append :
      (s u : List ℕ) → Free (λ c. c == sep) s → split sep (s ++ sep ∷ u) ≡ s ∷ split sep u
  unfolding split
  split-append [] u h = rw (same sep) refl
  split-append (c ∷ s) u h = rw h.0 (ap (λ l. onto_first c l) (split-append s u h.1))

-- There is always a part.
pub split-some :
    (sep : ℕ) (s : List ℕ)
    → (first : List ℕ) × (rest : List (List ℕ)) × (split sep s ≡ first ∷ rest)
unfolding split
split-some sep [] = ([], [], refl)
split-some sep (c ∷ s) = elim (Bool-cases (c == sep)) [
  | inl t ↦ ([], split sep s, rw t refl)
  | inr t ↦ let (first, rest, e) = split-some sep s in (c ∷ first, rest, rw (t, e) refl)
]

pub strip_prefix-append : (pre s : List ℕ) → strip_prefix pre (pre ++ s) ≡ some s
unfolding strip_prefix
strip_prefix-append [] s = refl
strip_prefix-append (c ∷ pre) s = rw (same c) (strip_prefix-append pre s)
