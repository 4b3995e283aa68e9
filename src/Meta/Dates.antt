-- ===== src/Meta/Dates.antt =====
-- src/main.rs, `format_unix`, against a reader of its fields.
use hello_old.Base.{
  append_assoc, ℕ, zero, suc, ◌+◌, ◌-◌, ◌*◌, ◌/◌, ◌%◌, ◌^◌, ◌≤◌, ◌<◌, ◌≡◌, refl, sym, ap, ap₂, ◌∙◌,
  arith, Bool-cases, inl, inr, List, [], ◌∷◌, ◌++◌, ltb, ltb→lt, ltb→le, replicate, length,
  length-append, take, drop, take-append, drop-append, codes, pad_left, decimal, decimal_from,
}
use native.Mathlib.Nat.{pow-suc}
use hello_old.Clock.Calendar.{civil_from_days}
use hello_old.Clock.Count.{days_to, days_to-civil_from_days}
use hello_old.Meta.Record.{padded, format_unix}

-- The value of digits that follow those of `acc`.
abbrev pub number : ℕ → List ℕ → ℕ
number acc [] = acc
number acc (c ∷ s) = number (acc * 10 + (c - b'0')) s

-- A field of `k` digits, and what comes after it and a separator.
unfoldable pub field : ℕ → List ℕ → ℕ × List ℕ
field k s = (number 0 (take k s), drop (k + 1) s)

-- The seconds that a text of year, month, day, hours, minutes and seconds stands for.
unfoldable pub read_unix : List ℕ → ℕ
read_unix s =
    let (y, s1) = field 4 s in
    let (mo, s2) = field 2 s1 in
    let (d, s3) = field 2 s2 in
    let (h, s4) = field 2 s3 in
    let (m, s5) = field 2 s4 in
    let (sec, s6) = field 2 s5 in days_to (y, mo, d) * 86400 + h * 3600 + m * 60 + sec

number-append : (acc : ℕ) (s u : List ℕ) → number acc (s ++ u) ≡ number (number acc s) u
number-append acc [] u = refl
number-append acc (c ∷ s) u = number-append (acc * 10 + (c - b'0')) s u

-- The last `k` digits.
digits : ℕ → ℕ → List ℕ
digits zero n = []
digits (suc k) n = digits k (n / 10) ++ (b'0' + n % 10) ∷ []

length-digits : (k n : ℕ) → length (digits k n) ≡ k
unfolding digits
length-digits zero n = refl
length-digits (suc k) n =
    omega
      (arith, length-append (digits k (n / 10)) ((b'0' + n % 10) ∷ []), length-digits k (n / 10))

number-digits : (k n : ℕ) → n < 10 ^ k → number 0 (digits k n) ≡ n
unfolding digits
number-digits zero n small = omega arith
number-digits (suc k) n small =
    number-append 0 (digits k (n / 10)) _
    ∙ ap (λ x. x * 10 + (b'0' + n % 10 - b'0'))
        (number-digits k (n / 10) (omega (arith, pow-suc 10 k)))
    ∙ omega arith

replicate-snoc : (k c : ℕ) → replicate k c ++ c ∷ [] ≡ c ∷ replicate k c
replicate-snoc zero c = refl
replicate-snoc (suc k) c = ap (λ l. c ∷ l) (replicate-snoc k c)

digits-zero : (k : ℕ) → digits k 0 ≡ replicate k b'0'
unfolding digits
digits-zero zero = refl
digits-zero (suc k) = ap (λ l. l ++ b'0' ∷ []) (digits-zero k) ∙ replicate-snoc k b'0'

short : (k n : ℕ) → n < 10 → pad_left b'0' (suc k) ((b'0' + n) ∷ []) ≡ digits (suc k) n
unfolding digits
short k n small =
    let none_left : n / 10 ≡ 0 = omega arith in
    let same : n % 10 ≡ n = omega arith in
    let left : suc k - 1 ≡ k = omega arith in
    rw (none_left, same)
      (ap (λ l. l ++ (b'0' + n) ∷ []) (ap (λ m. replicate m b'0') left ∙ sym (digits-zero k)))

pad-snoc :
    (k c : ℕ) (s : List ℕ) → pad_left b'0' (suc k) (s ++ c ∷ []) ≡ pad_left b'0' k s ++ c ∷ []
pad-snoc k c s =
    let more : suc k - length (s ++ c ∷ []) ≡ k - length s =
      omega (arith, length-append s (c ∷ [])) in
    ap (λ m. replicate m b'0' ++ (s ++ c ∷ [])) more
    ∙ sym (append_assoc (replicate (k - length s) b'0') s (c ∷ []))

longer :
    (k n : ℕ) (s : List ℕ)
    → n < 10 ^ suc k
    → 10 ≤ n
    → ((j : ℕ) → n / 10 < 10 ^ suc j → pad_left b'0' (suc j) s ≡ digits (suc j) (n / 10))
    → pad_left b'0' (suc k) (s ++ (b'0' + n % 10) ∷ []) ≡ digits (suc k) n
unfolding digits
longer zero n s small big h = absurd (omega arith)
longer (suc k) n s small big h =
    pad-snoc (suc k) (b'0' + n % 10) s
    ∙ ap (λ l. l ++ (b'0' + n % 10) ∷ []) (h k (omega (arith, pow-suc 10 (suc k))))

padded_from :
    (fuel k n : ℕ)
    → n ≤ fuel
    → n < 10 ^ suc k
    → pad_left b'0' (suc k) (decimal_from fuel n) ≡ digits (suc k) n
unfolding decimal_from
padded_from zero k n le small =
    let same : n % 10 ≡ n = omega arith in rw same (short k n (omega arith))
padded_from (suc fuel) k n le small = elim (Bool-cases (ltb n 10)) [
  | inl t ↦ rw t (short k n (ltb→lt n 10 t))
  | inr t ↦
      let big = ltb→le n 10 t in
      rw t (
        longer k n (decimal_from fuel (n / 10)) small big
          (λ j. padded_from fuel j (n / 10) (omega arith)))
]

padded-digits : (k n : ℕ) → n < 10 ^ suc k → padded (suc k) n ≡ digits (suc k) n
unfolding decimal
padded-digits k n small = padded_from n k n (omega arith) small

-- A padded field is read, and what follows the separator is left.
field-padded :
    (k n c : ℕ) (rest : List ℕ)
    → n < 10 ^ suc k
    → field (suc k) (padded (suc k) n ++ c ∷ rest) ≡ (n, rest)
unfolding field
field-padded k n c rest small =
    let s = digits (suc k) n in
    ap (λ l. field (suc k) (l ++ c ∷ rest)) (padded-digits k n small)
    ∙ ap₂ (λ a b. (number 0 a, b))
        (take-append s (c ∷ rest) (suc k) (sym (length-digits (suc k) n)))
        (ap (λ l. drop (suc k + 1) l) (sym (append_assoc s (c ∷ []) rest))
          ∙ drop-append (s ++ c ∷ []) rest (suc k + 1)
              (omega (arith, length-append s (c ∷ []), length-digits (suc k) n)))
    ∙ ap (λ m. (m, rest)) (number-digits (suc k) n small)

-- The fields of a text in order.
abbrev layout : ℕ → ℕ → ℕ → ℕ → ℕ → ℕ → List ℕ
layout y mo d h m sec =
    padded 4 y
    ++ b'-'
      ∷ (padded 2 mo
          ++ b'-'
            ∷ (padded 2 d
                ++ b' '
                  ∷ (padded 2 h
                      ++ b':' ∷ (padded 2 m ++ b':' ∷ (padded 2 sec ++ b' ' ∷ codes "UTC")))))

format_unix-layout :
    (ts : ℕ)
    → format_unix ts
      ≡ layout
          (civil_from_days (ts / 86400)).0
          (civil_from_days (ts / 86400)).1
          (civil_from_days (ts / 86400)).2
          (ts % 86400 / 3600)
          (ts % 86400 % 3600 / 60)
          (ts % 86400 % 60)
unfolding format_unix
format_unix-layout ts = simp append_assoc

read-layout :
    (y mo d h m sec : ℕ)
    → y < 10000
    → mo < 100
    → d < 100
    → h < 100
    → m < 100
    → sec < 100
    → read_unix (layout y mo d h m sec) ≡ days_to (y, mo, d) * 86400 + h * 3600 + m * 60 + sec
unfolding read_unix
read-layout y mo d h m sec a b c e f g =
    rw
      (
        field-padded 3 y b'-' _ a,
        field-padded 1 mo b'-' _ b,
        field-padded 1 d b' ' _ c,
        field-padded 1 h b':' _ e,
        field-padded 1 m b':' _ f,
        field-padded 1 sec b' ' (codes "UTC") g,
      )
      refl

-- A time is printed so that its fields give it back, by the calendar's count of days, as long as the
-- year has four digits.
pub read_unix-format_unix :
    (ts : ℕ) → (civil_from_days (ts / 86400)).0 < 10000 → read_unix (format_unix ts) ≡ ts
read_unix-format_unix ts four =
    let date = days_to-civil_from_days (ts / 86400) in
    ap read_unix (format_unix-layout ts)
    ∙ read-layout _ _ _ _ _ _ four (omega (arith, date.2)) (omega (arith, date.4)) (omega arith)
        (omega arith) (omega arith)
    ∙ ap (λ n. n * 86400 + ts % 86400 / 3600 * 3600 + ts % 86400 % 3600 / 60 * 60 + ts % 86400 % 60)
        date.0
    ∙ omega arith
