-- ===== src/Clock/Median.antt =====
-- src/main.rs, `consensus`: the answer that it takes.
use hello_old.Base.{
  ℕ, ◌*◌, ◌/◌, ◌≤◌, ◌≡◌, ◌≢◌, refl, arith, ◌⊎◌, inl, inr, true, false, Bool-cases, List, [], ◌∷◌,
  none, some, ◌==◌, length, All,
}
use mathlib.Core.List.{Memᴰ}
use hello_old.Clock.Ntp.{F64, Answer}
use hello_old.Clock.Consensus.{is_good, good, sort, consensus}
use hello_old.Clock.Sorting.{
  count, Orders, Small, less, sort-All, sort-Sorted, count-sort, length-sort, lookup-some,
  All-lookup, above_count, below_count,
}

module _ (f : F64) (o : Orders f) where
  pub good-Small : (xs : List (Answer f)) → All (Small f) (good f xs)
  unfolding good
  good-Small [] = tt
  good-Small (a ∷ xs) = elim (Bool-cases (is_good f a)) [
    | inl t ↦ rw t (t, good-Small xs)
    | inr t ↦ rw t (good-Small xs)
  ]

  good-All : (P : Answer f → Type 0) (xs : List (Answer f)) → All P xs → All P (good f xs)
  unfolding good
  good-All P [] h = tt
  good-All P (a ∷ xs) h = elim (Bool-cases (is_good f a)) [
    | inl t ↦ rw t (h.0, good-All P xs h.1)
    | inr t ↦ rw t (good-All P xs h.1)
  ]

  good_empty : (xs : List (Answer f)) → length (good f xs) ≡ 0 → All (λ a. is_good f a ≡ false) xs
  unfolding good
  good_empty [] h = tt
  good_empty (a ∷ xs) h = elim (Bool-cases (is_good f a)) [
    | inl t ↦ absurd (not_zero (good f xs) (rw t at h))
    | inr t ↦ (t, good_empty xs (rw t at h))
  ]
    where
      not_zero : (l : List (Answer f)) → length (a ∷ l) ≢ 0
      not_zero l e = omega arith

  Memᴰ-later :
      (b : Answer f) (xs ys : List (Answer f))
      → All (λ a. Memᴰ a ys) xs
      → All (λ a. Memᴰ a (b ∷ ys)) xs
  Memᴰ-later b [] ys h = tt
  Memᴰ-later b (a ∷ xs) ys h = (Memᴰ.tail h.0, Memᴰ-later b xs ys h.1)

  Memᴰ-All : (xs : List (Answer f)) → All (λ a. Memᴰ a xs) xs
  Memᴰ-All [] = tt
  Memᴰ-All (a ∷ xs) = (Memᴰ.head refl, Memᴰ-later a xs xs (Memᴰ-All xs))

  pub consensus_lem :
      (results : List (Answer f))
      → ((consensus f results ≡ none) × All (λ a. is_good f a ≡ false) results)
        ⊎ ((x : Answer f) × (consensus f results ≡ some x)
            × Memᴰ x results
            × (is_good f x ≡ true)
            × (2 * count (λ b. less f b x) (good f results) ≤ length (good f results))
            × (2 * count (λ b. less f x b) (good f results) ≤ length (good f results)))
  unfolding consensus
  consensus_lem results =
      let small = good f results in
      elim (Bool-cases (length small == 0)) [
        | inl t ↦ inl (rw t refl, good_empty results (ground arith))
        | inr t ↦
            let i = length small / 2 in
            let (x, at) =
              lookup-some o (sort f small) i
                (omega (arith, length-sort o small, positive (length small) t)) in
            let sorted = sort-Sorted o small (good-Small results) in
            inr (
              x,
              rw t at,
              All-lookup o (λ a. Memᴰ a results) (sort f small) i x
                  (sort-All o (λ a. Memᴰ a results) small
                    (good-All (λ a. Memᴰ a results) results (Memᴰ-All results)))
                  at,
              All-lookup o (Small f) (sort f small) i x
                  (sort-All o (Small f) small (good-Small results)) at,
              omega (
                arith,
                below_count o (sort f small) i x sorted at,
                count-sort o (λ b. less f b x) small,
              ),
              omega (
                arith,
                above_count o (sort f small) i x sorted at,
                count-sort o (λ b. less f x b) small,
                length-sort o small,
              ),
            )
      ]
    where
      positive : (n : ℕ) → (n == 0) ≡ false → 1 ≤ n
      positive n h = ground arith
