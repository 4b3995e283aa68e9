-- ===== src/Clock/Date.antt =====
-- The dates of the Gregorian calendar from 1970 on, and that the days before a date tell which it is.
use hello_old.Base.{
  ◌%◌, ◌==◌, ◌&&◌, ◌||◌, not, Bool, ℕ, ◌+◌, ◌-◌, ◌*◌, ◌/◌, ◌<◌, ◌≤◌, ◌≡◌, refl, sym, arith, false,
  Bool-cases, inl, inr, leb, leb→le, if◌then◌else◌,
}
use hello_old.Clock.Count.{days_to}

-- The dates of the Gregorian calendar from 1970 on.
abbrev pub is_leap : ℕ → Bool
is_leap y = y % 4 == 0 && not (y % 100 == 0) || y % 400 == 0

abbrev pub days_in_month : ℕ → ℕ → ℕ
days_in_month y m =
    if m == 2
    then (if is_leap y then 29 else 28)
    else if m == 4 || (m == 6 || (m == 9 || m == 11))
    then 30
    else 31

pub record IsDate (date : ℕ × ℕ × ℕ) : Type 0 where
  pub from_1970 : 1970 ≤ date.0
  pub month_in : (1 ≤ date.1) × (date.1 ≤ 12)
  pub day_in : (1 ≤ date.2) × (date.2 ≤ days_in_month date.0 date.1)

-- The year that begins in March, the month from March on, and the days before them.
abbrev march_year : ℕ × ℕ × ℕ → ℕ
march_year (y, m, d) = if leb m 2 then y - 1 else y

abbrev march_month : ℕ × ℕ × ℕ → ℕ
march_month (y, m, d) = if leb m 2 then m + 9 else m - 3

abbrev pub days_to_year : ℕ → ℕ
days_to_year y = 365 * y + y / 4 - y / 100 + y / 400

abbrev days_to_month : ℕ → ℕ
days_to_month m = (153 * m + 2) / 5

record InMarchYear (y m day : ℕ) : Type 0 where
  late : 1969 ≤ y
  from : days_to_month m ≤ day
  to : day < days_to_month (m + 1)
  ends : days_to_year y + day < days_to_year (y + 1)

in_march_year :
    (y m d : ℕ)
    → IsDate (y, m, d)
    → InMarchYear
        (march_year (y, m, d))
        (march_month (y, m, d))
        (days_to_month (march_month (y, m, d)) + d - 1)
in_march_year y m d h =
    let from = h.from_1970 in
    let (low, high) = h.month_in in
    let (first, last) = h.day_in in
    record { late = ground arith; from = omega arith; to = ground arith; ends = ground arith }

year-before :
    (y y' day day' : ℕ)
    → days_to_year y + day < days_to_year (y + 1)
    → days_to_year y + day ≡ days_to_year y' + day'
    → y' ≤ y
year-before y y' day day' ends e = elim (Bool-cases (leb y' y)) [
  | inl t ↦ leb→le y' y t
  | inr t ↦ absurd (omega (arith, ends, e, year-mono (y + 1) y' (later t)))
]
  where
    later : leb y' y ≡ false → y + 1 ≤ y'
    later t = ground arith

    year-mono : (a b : ℕ) → a ≤ b → days_to_year a ≤ days_to_year b
    year-mono a b h = omega arith

year_unique :
    {y m y' m' day day' : ℕ}
    → InMarchYear y m day
    → InMarchYear y' m' day'
    → days_to_year y + day ≡ days_to_year y' + day'
    → y ≡ y'
year_unique {y} {y' = y'} {day} {day'} h h' e =
    let upper = year-before y y' day day' h.ends e in
    let lower = year-before y' y day' day h'.ends (sym e) in omega (arith, upper, lower)

month_unique :
    {y m y' m' day day' : ℕ} → InMarchYear y m day → InMarchYear y' m' day' → day ≡ day' → m ≡ m'
month_unique h h' e = omega (arith, h.from, h.to, h'.from, h'.to, e)

-- The months from March on and their years tell the months from January on.
january-months :
    (y m y' m' : ℕ)
    → 1 ≤ m
    → m ≤ 12
    → 1 ≤ m'
    → m' ≤ 12
    → 1 ≤ y
    → 1 ≤ y'
    → (if leb m 2 then y - 1 else y) ≡ (if leb m' 2 then y' - 1 else y')
    → (if leb m 2 then m + 9 else m - 3) ≡ (if leb m' 2 then m' + 9 else m' - 3)
    → (y ≡ y') × (m ≡ m')
january-months y m y' m' a b c d p q e e' = ground arith

from_epoch :
    (y m d : ℕ)
    → IsDate (y, m, d)
    → 719468 ≤ days_to_year (march_year (y, m, d)) + (days_to_month (march_month (y, m, d)) + d - 1)
from_epoch y m d h =
    let from = h.from_1970 in
    let (low, high) = h.month_in in let (first, last) = h.day_in in ground arith

-- Two dates that are the same number of days after 1970-01-01 are the same.
pub days_to-injective :
    (date date' : ℕ × ℕ × ℕ)
    → IsDate date
    → IsDate date'
    → days_to date ≡ days_to date'
    → date ≡ date'
days_to-injective (y, m, d) (y', m', d') h h' e =
    let in_year = in_march_year y m d h in
    let in_year' = in_march_year y' m' d' h' in
    let total : days_to_year (march_year (y, m, d))
          + (days_to_month (march_month (y, m, d)) + d - 1)
        ≡ days_to_year (march_year (y', m', d'))
          + (days_to_month (march_month (y', m', d')) + d' - 1) =
      totals (from_epoch y m d h) (from_epoch y' m' d' h') h.day_in.0 h'.day_in.0 in
    let same_year = year_unique in_year in_year' total in
    let same_day : days_to_month (march_month (y, m, d)) + d - 1
        ≡ days_to_month (march_month (y', m', d')) + d' - 1 =
      omega (arith, same_year, total) in
    let same_month = month_unique in_year in_year' same_day in
    let (ys, ms) =
      january-months y m y' m' h.month_in.0 h.month_in.1 h'.month_in.0 h'.month_in.1
        (omega (arith, h.from_1970)) (omega (arith, h'.from_1970)) same_year same_month in
    let ds : d ≡ d' = omega (arith, same_month, same_day, h.day_in.0, h'.day_in.0) in
    rw (ys, ms, ds) refl
  where
    totals :
        719468
          ≤ days_to_year (march_year (y, m, d)) + (days_to_month (march_month (y, m, d)) + d - 1)
        → 719468
          ≤ days_to_year (march_year (y', m', d'))
            + (days_to_month (march_month (y', m', d')) + d' - 1)
        → 1 ≤ d
        → 1 ≤ d'
        → days_to_year (march_year (y, m, d)) + (days_to_month (march_month (y, m, d)) + d - 1)
          ≡ days_to_year (march_year (y', m', d'))
            + (days_to_month (march_month (y', m', d')) + d' - 1)
    totals big big' first first' = omega (arith, big, big', first, first', e)
