-- ===== src/Meta/Numbers.antt =====
-- A number that is printed in decimal is read back.
use hello_old.Base.{
  All-append, ℕ, zero, suc, ◌+◌, ◌-◌, ◌*◌, ◌/◌, ◌%◌, ◌^◌, ◌≤◌, ◌<◌, ◌≡◌, ap, ◌∙◌, arith, true,
  false, Bool-cases, inl, inr, List, [], ◌∷◌, ◌++◌, none, some, ◌&&◌, ◌==◌, ltb, ltb→lt, ltb→le,
  All, decimal, decimal_from, length, length-append, ◌≢◌,
}
use hello_old.Meta.Text.{is_digit, digits_from, parse_u64}

-- Digits that are read after others.
digit_step :
    (acc d : ℕ)
    → d < 10
    → acc * 10 + d < 2 ^ 64
    → digits_from acc ((b'0' + d) ∷ []) ≡ some (acc * 10 + d)
unfolding digits_from
digit_step acc d small fits = ground arith

digits_from-append :
    (acc v : ℕ) (xs ys : List ℕ)
    → digits_from acc xs ≡ some v
    → digits_from acc (xs ++ ys) ≡ digits_from v ys
unfolding digits_from
digits_from-append acc v [] ys e = ap (λ a. digits_from a ys) (some-injective acc v e)
  where
    some-injective : (a b : ℕ) → some a ≡ some b → a ≡ b
    some-injective a b e = cc
digits_from-append acc v (c ∷ xs) ys e =
    let acc' = acc * 10 + (c - b'0') in
    elim (Bool-cases (is_digit c && ltb acc' (2 ^ 64))) [
      | inl t ↦ rw t (digits_from-append acc' v xs ys (rw t at e))
      | inr t ↦ absurd (nothing (rw t at e))
    ]
  where
    nothing : none ≢ some v
    nothing e = cc

digits-decimal_from :
    (fuel n : ℕ) → n ≤ fuel → n < 2 ^ 64 → digits_from 0 (decimal_from fuel n) ≡ some n
unfolding decimal_from
digits-decimal_from zero n le fits =
    digit_step 0 (n % 10) (omega arith) (omega arith) ∙ ap some (omega arith)
digits-decimal_from (suc fuel) n le fits = elim (Bool-cases (ltb n 10)) [
  | inl t ↦
      let small = ltb→lt n 10 t in rw t (digit_step 0 n small (omega arith) ∙ ap some (omega arith))
  | inr t ↦
      let big = ltb→le n 10 t in
      rw t (
        digits_from-append 0 (n / 10) (decimal_from fuel (n / 10)) _
          (digits-decimal_from fuel (n / 10) (omega arith) (omega arith))
        ∙ digit_step (n / 10) (n % 10) (omega arith) (omega arith)
        ∙ ap some (omega arith))
]

pub digit_lem : (d : ℕ) → d < 10 → is_digit (b'0' + d) ≡ true
digit_lem d small = ground arith

decimal_from-digits : (fuel n : ℕ) → All (λ c. is_digit c ≡ true) (decimal_from fuel n)
unfolding decimal_from
decimal_from-digits zero n = (digit_lem (n % 10) (omega arith), tt)
decimal_from-digits (suc fuel) n = elim (Bool-cases (ltb n 10)) [
  | inl t ↦ let small = ltb→lt n 10 t in rw t (digit_lem n small, tt)
  | inr t ↦ rw t (
      All-append (λ c. is_digit c ≡ true) (decimal_from fuel (n / 10)) _
        (decimal_from-digits fuel (n / 10)) (digit_lem (n % 10) (omega arith), tt))
]

-- A printed number is made of digits.
pub decimal-digits : (n : ℕ) → All (λ c. is_digit c ≡ true) (decimal n)
unfolding decimal
decimal-digits n = decimal_from-digits n n

parse-digits :
    (v : ℕ) (s : List ℕ)
    → All (λ c. is_digit c ≡ true) s
    → digits_from 0 s ≡ some v
    → 1 ≤ length s
    → parse_u64 s ≡ some v
unfolding parse_u64
parse-digits v [] h e long = absurd (omega arith)
parse-digits v (c ∷ s) h e long = rw (not_plus c h.0) e
  where
    not_plus : (c : ℕ) → is_digit c ≡ true → (c == b'+') ≡ false
    not_plus c h = ground arith

length-decimal_from : (fuel n : ℕ) → 1 ≤ length (decimal_from fuel n)
unfolding decimal_from
length-decimal_from zero n = omega arith
length-decimal_from (suc fuel) n = elim (Bool-cases (ltb n 10)) [
  | inl t ↦ rw t (omega arith)
  | inr t ↦ rw t (omega (arith, length-append (decimal_from fuel (n / 10)) ((b'0' + n % 10) ∷ [])))
]

-- `parse` reads what is printed.
pub parse_u64-decimal : (n : ℕ) → n < 2 ^ 64 → parse_u64 (decimal n) ≡ some n
unfolding decimal
parse_u64-decimal n fits =
    parse-digits n (decimal_from n n) (decimal_from-digits n n)
      (digits-decimal_from n n (omega arith) fits) (length-decimal_from n n)
