-- ===== src/Clock/Sorting.antt =====
-- src/main.rs, `consensus`: its sorting.
use hello_old.Base.{
  ℕ, zero, suc, ◌+◌, ◌≤◌, ◌<◌, ◌≡◌, refl, subst, ap, ◌∙◌, arith, inl, inr, Bool, true, false,
  Bool-cases, List, [], ◌∷◌, some, length, get_elem?, if◌then◌else◌, All,
}
use hello_old.Clock.Ntp.{F64, Answer}
use hello_old.Clock.Consensus.{size, is_good, insert, sort}

-- How many answers pass a test.
abbrev pub count : {A : Type 0} → (A → Bool) → List A → ℕ
count p [] = 0
count p (a ∷ xs) = if p a then 1 + count p xs else count p xs

-- On sizes below the limit the comparison is a strict weak order. No answer that is not a number is
-- below the limit.
pub record Orders (f : F64) : Type 0 where
  pub asymmetric : (a b : F64.Number f) → F64.lt f a b ≡ true → F64.lt f b a ≡ false
  pub transitive :
      (a b c : F64.Number f)
      → F64.lt f a (F64.limit f) ≡ true
      → F64.lt f b (F64.limit f) ≡ true
      → F64.lt f c (F64.limit f) ≡ true
      → F64.lt f b a ≡ false
      → F64.lt f c b ≡ false
      → F64.lt f c a ≡ false

count-length : {A : Type 0} (p : A → Bool) (xs : List A) → count p xs ≤ length xs
count-length p [] = omega arith
count-length p (a ∷ xs) = let rest = count-length p xs in either (p a) rest
  where
    either :
        (b : Bool)
        → count p xs ≤ length xs
        → (if b then 1 + count p xs else count p xs) ≤ suc (length xs)
    either true rest = omega arith
    either false rest = omega arith

count-none : {A : Type 0} (p : A → Bool) (xs : List A) → All (λ a. p a ≡ false) xs → count p xs ≡ 0
count-none p [] h = refl
count-none p (a ∷ xs) h = rw h.0 (count-none p xs h.1)

module _ (f : F64) where
  abbrev pub Small : Answer f → Type 0
  Small a = is_good f a ≡ true

  abbrev pub less : Answer f → Answer f → Bool
  less a b = F64.lt f (size f a) (size f b)

  -- No answer is smaller than one before it.
  abbrev pub Sorted : List (Answer f) → Type 0
  Sorted [] = Unit
  Sorted (a ∷ xs) = All (λ b. less b a ≡ false) xs × Sorted xs

module _ {f : F64} (o : Orders f) where
  irreflexive : (a : Answer f) → less f a a ≡ false
  irreflexive a = elim (Bool-cases (less f a a)) [
    | inl t ↦ Orders.asymmetric o (size f a) (size f a) t
    | inr t ↦ t
  ]

  insert-All :
      (P : Answer f → Type 0) (a : Answer f) (xs : List (Answer f))
      → P a
      → All P xs
      → All P (insert f a xs)
  unfolding insert
  insert-All P a [] h k = (h, tt)
  insert-All P a (b ∷ xs) h k = elim (Bool-cases (less f b a)) [
    | inl t ↦ rw t (k.0, insert-All P a xs h k.1)
    | inr t ↦ rw t (h, k)
  ]

  below-All :
      (a b : Answer f) (xs : List (Answer f))
      → Small f a
      → Small f b
      → All (Small f) xs
      → less f b a ≡ false
      → All (λ c. less f c b ≡ false) xs
      → All (λ c. less f c a ≡ false) xs
  below-All a b [] sa sb ss h k = tt
  below-All a b (c ∷ xs) sa sb ss h k = (
    Orders.transitive o (size f a) (size f b) (size f c) sa sb ss.0 h k.0,
    below-All a b xs sa sb ss.1 h k.1,
  )

  insert-Sorted :
      (a : Answer f) (xs : List (Answer f))
      → Small f a
      → All (Small f) xs
      → Sorted f xs
      → Sorted f (insert f a xs)
  unfolding insert
  insert-Sorted a [] sa ss h = (tt, tt)
  insert-Sorted a (b ∷ xs) sa ss h = elim (Bool-cases (less f b a)) [
    | inl t ↦ rw t (
      insert-All (λ c. less f c b ≡ false) a xs (Orders.asymmetric o (size f b) (size f a) t) h.0,
      insert-Sorted a xs sa ss.1 h.1,
    )
    | inr t ↦ rw t ((t, below-All a b xs sa ss.0 ss.1 t h.0), h)
  ]

  pub sort-All : (P : Answer f → Type 0) (xs : List (Answer f)) → All P xs → All P (sort f xs)
  unfolding sort
  sort-All P [] h = tt
  sort-All P (a ∷ xs) h = insert-All P a (sort f xs) h.0 (sort-All P xs h.1)

  pub sort-Sorted : (xs : List (Answer f)) → All (Small f) xs → Sorted f (sort f xs)
  unfolding sort
  sort-Sorted [] h = tt
  sort-Sorted (a ∷ xs) h =
      insert-Sorted a (sort f xs) h.0 (sort-All (Small f) xs h.1) (sort-Sorted xs h.1)

  count-insert :
      (p : Answer f → Bool) (a : Answer f) (xs : List (Answer f))
      → count p (insert f a xs) ≡ (if p a then 1 + count p xs else count p xs)
  unfolding insert
  count-insert p a [] = refl
  count-insert p a (b ∷ xs) = elim (Bool-cases (less f b a)) [
    | inl t ↦ rw (t, count-insert p a xs) (commute (p a) (p b) (count p xs))
    | inr t ↦ rw t refl
  ]
    where
      commute :
          (u v : Bool) (n : ℕ)
          → (if v then 1 + (if u then 1 + n else n) else (if u then 1 + n else n))
            ≡ (if u then 1 + (if v then 1 + n else n) else (if v then 1 + n else n))
      commute true true n = refl
      commute true false n = refl
      commute false true n = refl
      commute false false n = refl

  pub count-sort : (p : Answer f → Bool) (xs : List (Answer f)) → count p (sort f xs) ≡ count p xs
  unfolding sort
  count-sort p [] = refl
  count-sort p (a ∷ xs) =
      count-insert p a (sort f xs) ∙ ap (λ n. if p a then 1 + n else n) (count-sort p xs)

  length-insert : (a : Answer f) (xs : List (Answer f)) → length (insert f a xs) ≡ 1 + length xs
  unfolding insert
  length-insert a [] = refl
  length-insert a (b ∷ xs) = elim (Bool-cases (less f b a)) [
    | inl t ↦ rw t (omega (arith, length-insert a xs))
    | inr t ↦ rw t (omega arith)
  ]

  pub length-sort : (xs : List (Answer f)) → length (sort f xs) ≡ length xs
  unfolding sort
  length-sort [] = refl
  length-sort (a ∷ xs) = omega (arith, length-insert a (sort f xs), length-sort xs)

  pub lookup-some :
      (xs : List (Answer f)) (i : ℕ) → i < length xs → (x : Answer f) × (get_elem? xs i ≡ some x)
  lookup-some [] i h = absurd (omega arith)
  lookup-some (a ∷ xs) zero h = (a, refl)
  lookup-some (a ∷ xs) (suc i) h = lookup-some xs i (omega arith)

  same_answer : (a x : Answer f) → some a ≡ some x → a ≡ x
  same_answer a x e = cc

  pub All-lookup :
      (P : Answer f → Type 0) (xs : List (Answer f)) (i : ℕ) (x : Answer f)
      → All P xs
      → get_elem? xs i ≡ some x
      → P x
  All-lookup P [] i x h e = cc
  All-lookup P (a ∷ xs) zero x h e = subst P (same_answer a x e) h.0
  All-lookup P (a ∷ xs) (suc i) x h e = All-lookup P xs i x h.1 e

  pub above_count :
      (xs : List (Answer f)) (i : ℕ) (x : Answer f)
      → Sorted f xs
      → get_elem? xs i ≡ some x
      → count (λ b. less f x b) xs + (i + 1) ≤ length xs
  above_count [] i x h e = cc
  above_count (a ∷ xs) zero x h e =
      let not_self : less f x a ≡ false = rw (same_answer a x e) (irreflexive x) in
      rw not_self (omega (arith, count-length (λ b. less f x b) xs))
  above_count (a ∷ xs) (suc i) x h e =
      let not_first = All-lookup (λ b. less f b a ≡ false) xs i x h.0 e in
      rw not_first (omega (arith, above_count xs i x h.1 e))

  pub below_count :
      (xs : List (Answer f)) (i : ℕ) (x : Answer f)
      → Sorted f xs
      → get_elem? xs i ≡ some x
      → count (λ b. less f b x) xs ≤ i
  below_count [] i x h e = cc
  below_count (a ∷ xs) zero x h e =
      let at = same_answer a x e in
      let none_less : count (λ b. less f b a) (a ∷ xs) ≡ 0 =
        count-none (λ b. less f b a) (a ∷ xs) (irreflexive a, h.0) in
      omega (arith, subst (λ z. count (λ b. less f b z) (a ∷ xs) ≡ 0) at none_less)
  below_count (a ∷ xs) (suc i) x h e = at_most (less f a x) (below_count xs i x h.1 e)
    where
      at_most :
          (b : Bool)
          → count (λ b. less f b x) xs ≤ i
          → (if b then 1 + count (λ b. less f b x) xs else count (λ b. less f b x) xs) ≤ suc i
      at_most true k = omega arith
      at_most false k = omega arith
