-- ===== src/Clock/Servers/Answers.antt =====
-- src/ntp.rs, `sync_all`: where an answer that it returns comes from.
use hello_old.Base.{ℕ, ◌≡◌, refl, ◌∙◌, inl, inr, List, [], ◌∷◌, Option, none, some}
use mathlib.Core.List.Memᴰ
use mathlib.Core.List.{Permᴰ, Memᴰ}
use hello_old.Clock.Ntp.{F64, Answer, Exchange, query, queried, push_answer}
use hello_old.Clock.Servers.{returned, Sync, answers_of, called, Turns}
use hello_old.Clock.Servers.Safety.{sync_all-Permᴰ}

Memᴰ-Permᴰ : {A : Type 0} {x : A} {xs ys : List A} → Permᴰ xs ys → Memᴰ x xs → Memᴰ x ys
Memᴰ-Permᴰ Permᴰ.nil m = m
Memᴰ-Permᴰ (Permᴰ.cons e h) m = elim (Memᴰ.cases_cons m) [
  | inl same ↦ Memᴰ.head (same ∙ e)
  | inr m' ↦ Memᴰ.tail (Memᴰ-Permᴰ h m')
]
Memᴰ-Permᴰ (Permᴰ.swap e e') m = elim (Memᴰ.cases_cons m) [
  | inl same ↦ Memᴰ.tail (Memᴰ.head (same ∙ e))
  | inr m' ↦ elim (Memᴰ.cases_cons m') [
    | inl same ↦ Memᴰ.head (same ∙ e')
    | inr m'' ↦ Memᴰ.tail (Memᴰ.tail m'')
  ]
]
Memᴰ-Permᴰ (Permᴰ.trans h k) m = Memᴰ-Permᴰ k (Memᴰ-Permᴰ h m)

module _ (f : F64) where
  answers_of-queried :
      (servers : List (Exchange f)) (x : Answer f)
      → Memᴰ x (answers_of f (queried f servers))
      → (e : Exchange f) × Memᴰ e servers × (query f e ≡ some x)
  unfolding answers_of queried
  answers_of-queried [] x m = absurd (Memᴰ.not-nil m)
  answers_of-queried (e ∷ servers) x m =
      from (λ m'. answers_of-queried servers x m') (query f e) refl m
    where
      from_later :
          (e' : Exchange f) × Memᴰ e' servers × (query f e' ≡ some x)
          → (e' : Exchange f) × Memᴰ e' (e ∷ servers) × (query f e' ≡ some x)
      from_later (e', m', given) = (e', Memᴰ.tail m', given)

      from :
          (Memᴰ x (answers_of f (queried f servers))
            → (e' : Exchange f) × Memᴰ e' servers × (query f e' ≡ some x))
          → (o : Option (Answer f)) → query f e ≡ o
          → Memᴰ x (push_answer f o (answers_of f (queried f servers)))
          → (e' : Exchange f) × Memᴰ e' (e ∷ servers) × (query f e' ≡ some x)
      from go none given m = from_later (go m)
      from go (some a) given m = elim (Memᴰ.cases_cons m) [
        | inl same ↦ (e, Memᴰ.head refl, cc)
        | inr m' ↦ from_later (go m')
      ]

  -- An answer that `sync_all` returns is what the query of one of the servers gave.
  pub results-queried :
      (servers : List (Exchange f)) (start : ℕ) (w : Sync f) (results : List (Answer f))
      (x : Answer f)
      → Turns f (called f (queried f servers) start) w
      → w.stage ≡ returned results
      → Memᴰ x results
      → (e : Exchange f) × Memᴰ e servers × (query f e ≡ some x)
  results-queried servers start w results x run end m =
      elim (sync_all-Permᴰ f (queried f servers) start w results run end).1 [
        | inl same ↦ answers_of-queried servers x (Memᴰ-Permᴰ same m)
        | inr (over, (late, same)) ↦
            answers_of-queried servers x (Memᴰ-Permᴰ same (Memᴰ.append_left late m))
      ]
