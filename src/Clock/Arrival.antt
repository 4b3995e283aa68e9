-- ===== src/Clock/Arrival.antt =====
-- src/main.rs, `consensus`: the answers of `sync_all` come in the order in which its threads end, and it
-- takes the same drift for each order.
use hello_old.Base.{
  ℕ, suc, ◌+◌, ◌/◌, ◌≤◌, ◌≡◌, refl, ◌∙◌, arith, ◌⊎◌, inl, inr, Bool, true, false, Bool-cases, not,
  List, [], ◌∷◌, none, some, ◌==◌, length, if◌then◌else◌, All,
}
use mathlib.Core.List.Permᴰ
use mathlib.Core.List.{Permᴰ}
use hello_old.Clock.Ntp.{F64, Answer}
use hello_old.Clock.Consensus.{size, is_good, good, sort, consensus}
use hello_old.Clock.Sorting.{
  count, Orders, Small, less, sort-All, sort-Sorted, count-sort, length-sort, lookup-some,
  All-lookup, above_count, below_count,
}
use hello_old.Clock.Median.{good-Small}

-- A condition on each side of a sum.
either_order :
    (u v : Bool) (n : ℕ)
    → (if u then 1 + (if v then 1 + n else n) else (if v then 1 + n else n))
      ≡ (if v then 1 + (if u then 1 + n else n) else (if u then 1 + n else n))
either_order true true n = refl
either_order true false n = refl
either_order false true n = refl
either_order false false n = refl

count-Permᴰ : {A : Type 0} (p : A → Bool) {xs ys : List A} → Permᴰ xs ys → count p xs ≡ count p ys
count-Permᴰ p Permᴰ.nil = refl
count-Permᴰ p (Permᴰ.cons {a = a} e h) = rw (e, count-Permᴰ p h) refl
count-Permᴰ p (Permᴰ.swap {a = a} {b = b} {l = l} e e') =
    rw (← e, ← e') (either_order (p a) (p b) (count p l))
count-Permᴰ p (Permᴰ.trans h k) = count-Permᴰ p h ∙ count-Permᴰ p k

-- A test that another follows from is met at least as seldom.
count_mono :
    {A : Type 0} (p q : A → Bool) (P : A → Type 0) (xs : List A)
    → All P xs
    → ((a : A) → P a → p a ≡ true → q a ≡ true)
    → count p xs ≤ count q xs
count_mono p q P [] h f = omega arith
count_mono p q P (a ∷ xs) h f = both (p a) (q a) (f a h.0) (count_mono p q P xs h.1 f)
  where
    both :
        (u v : Bool)
        → (u ≡ true → v ≡ true)
        → count p xs ≤ count q xs
        → (if u then 1 + count p xs else count p xs) ≤ (if v then 1 + count q xs else count q xs)
    both true true g h = omega arith
    both true false g h = let e = g refl in cc
    both false true g h = omega arith
    both false false g h = omega arith

count-not :
    {A : Type 0} (p : A → Bool) (xs : List A) → count p xs + count (λ a. not (p a)) xs ≡ length xs
count-not p [] = omega arith
count-not p (a ∷ xs) = either (p a) (count-not p xs)
  where
    either :
        (b : Bool)
        → count p xs + count (λ a. not (p a)) xs ≡ length xs
        → (if b then 1 + count p xs else count p xs)
            + (if not b then 1 + count (λ a. not (p a)) xs else count (λ a. not (p a)) xs)
          ≡ suc (length xs)
    either true h = omega arith
    either false h = omega arith

module _ (f : F64) (o : Orders f) where
  -- The answer in the middle: what is smaller and what is larger.
  record Middle (xs : List (Answer f)) (x : Answer f) : Type 0 where
    small : Small f x
    below : count (λ b. less f b x) (good f xs) ≤ length (good f xs) / 2
    above : count (λ b. less f x b) (good f xs) + (length (good f xs) / 2 + 1) ≤ length (good f xs)

  consensus-Middle :
      (xs : List (Answer f))
      → ((consensus f xs ≡ none) × (length (good f xs) ≡ 0))
        ⊎ ((x : Answer f) × (consensus f xs ≡ some x) × Middle xs x)
  unfolding consensus
  consensus-Middle xs =
      let few = good f xs in
      elim (Bool-cases (length few == 0)) [
        | inl t ↦ inl (rw t refl, ground arith)
        | inr t ↦
            let i = length few / 2 in
            let (x, at) =
              lookup-some o (sort f few) i
                (omega (arith, length-sort o few, positive (length few) t)) in
            let sorted = sort-Sorted o few (good-Small f o xs) in
            inr (
              x,
              rw t at,
              record {
                small =
                    All-lookup o (Small f) (sort f few) i x
                      (sort-All o (Small f) few (good-Small f o xs)) at;
                below = omega (
                  arith,
                  below_count o (sort f few) i x sorted at,
                  count-sort o (λ b. less f b x) few,
                );
                above = omega (
                  arith,
                  above_count o (sort f few) i x sorted at,
                  count-sort o (λ b. less f x b) few,
                  length-sort o few,
                );
              },
            )
      ]
    where
      positive : (n : ℕ) → (n == 0) ≡ false → 1 ≤ n
      positive n h = ground arith

  good-Permᴰ : {xs ys : List (Answer f)} → Permᴰ xs ys → Permᴰ (good f xs) (good f ys)
  unfolding good
  good-Permᴰ Permᴰ.nil = Permᴰ.nil
  good-Permᴰ (Permᴰ.cons {a = a} e h) = elim (Bool-cases (is_good f a)) [
    | inl t ↦ rw (← e, t) (Permᴰ.cons refl (good-Permᴰ h))
    | inr t ↦ rw (← e, t) (good-Permᴰ h)
  ]
  good-Permᴰ (Permᴰ.swap {a = a} {b = b} {l = l} e e') =
      rw (← e, ← e') (swapped (is_good f a) (is_good f b))
    where
      swapped :
          (u v : Bool)
          → Permᴰ
              (if u
                then a ∷ (if v then b ∷ good f l else good f l)
                else (if v then b ∷ good f l else good f l))
              (if v
                then b ∷ (if u then a ∷ good f l else good f l)
                else (if u then a ∷ good f l else good f l))
      swapped true true = Permᴰ.swap refl refl
      swapped true false = Permᴰ.refl (a ∷ good f l)
      swapped false true = Permᴰ.refl (b ∷ good f l)
      swapped false false = Permᴰ.refl (good f l)
  good-Permᴰ (Permᴰ.trans h k) = Permᴰ.trans (good-Permᴰ h) (good-Permᴰ k)

  length-Permᴰ : {xs ys : List (Answer f)} → Permᴰ xs ys → length xs ≡ length ys
  length-Permᴰ Permᴰ.nil = refl
  length-Permᴰ (Permᴰ.cons e h) = omega (arith, length-Permᴰ h)
  length-Permᴰ (Permᴰ.swap e e') = refl
  length-Permᴰ (Permᴰ.trans h k) = length-Permᴰ h ∙ length-Permᴰ k

  Middle-Permᴰ : {xs ys : List (Answer f)} {y : Answer f} → Permᴰ xs ys → Middle ys y → Middle xs y
  Middle-Permᴰ {xs = xs} {ys = ys} {y = y} h m =
      let p = good-Permᴰ h in
      let size = length-Permᴰ p in
      record {
        small = m.small;
        below = omega (arith, m.below, size, count-Permᴰ (λ b. less f b y) p);
        above = omega (arith, m.above, size, count-Permᴰ (λ b. less f y b) p);
      }

  -- What is not above `x` is below everything that is above `x`.
  below_of :
      (x y b : Answer f)
      → Small f x
      → Small f y
      → Small f b
      → less f x y ≡ true
      → not (less f x b) ≡ true
      → less f b y ≡ true
  below_of x y b sx sy sb h k = elim (Bool-cases (less f b y)) [
    | inl t ↦ t
    | inr t ↦
        let none_between =
          Orders.transitive o (size f y) (size f b) (size f x) sy sb sx t
            (not_true (less f x b) k) in
        cc
  ]
    where
      not_true : (u : Bool) → not u ≡ true → u ≡ false
      not_true true e = cc
      not_true false e = refl

  Middle-least :
      (xs : List (Answer f)) (x y : Answer f) → Middle xs x → Middle xs y → less f x y ≡ false
  Middle-least xs x y m n = elim (Bool-cases (less f x y)) [
    | inl t ↦
        let few = good f xs in
        let fewer =
          count_mono (λ b. not (less f x b)) (λ b. less f b y) (Small f) few (good-Small f o xs)
            (λ b sb k. below_of x y b m.small n.small sb t k) in
        absurd (omega (arith, fewer, count-not (λ b. less f x b) few, m.above, n.below))
    | inr t ↦ t
  ]

  -- The order in which the answers come does not matter: for two orders of the same answers, nothing is
  -- taken for both, or what is taken has the same drift, of which neither is smaller. The sizes below the
  -- limit are ordered.
  pub consensus-Permᴰ :
      (xs ys : List (Answer f))
      → Permᴰ xs ys
      → ((consensus f xs ≡ none) × (consensus f ys ≡ none))
        ⊎ ((x : Answer f) × (y : Answer f) × (consensus f xs ≡ some x)
            × (consensus f ys ≡ some y)
            × (less f x y ≡ false)
            × (less f y x ≡ false))
  consensus-Permᴰ xs ys h =
      let size = length-Permᴰ (good-Permᴰ h) in
      elim (consensus-Middle xs) [
        | inl (e, no_xs) ↦ elim (consensus-Middle ys) [
          | inl (e', no_ys) ↦ inl (e, e')
          | inr (y, e', m) ↦ let some_ys = m.above in absurd (omega arith)
        ]
        | inr (x, e, m) ↦ elim (consensus-Middle ys) [
          | inl (e', no_ys) ↦ let some_xs = m.above in absurd (omega arith)
          | inr (y, e', n) ↦
              let n' = Middle-Permᴰ h n in
              inr (x, y, e, e', Middle-least xs x y m n', Middle-least xs y x n' m)
        ]
      ]
