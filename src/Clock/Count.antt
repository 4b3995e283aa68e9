-- ===== src/Clock/Count.antt =====
-- src/main.rs, `civil_from_days`, against the count of days of the Gregorian calendar.
use hello_old.Base.{
  ℕ, ◌+◌, ◌-◌, ◌*◌, ◌/◌, ◌<◌, ◌≤◌, ◌≡◌, refl, ◌∙◌, arith, true, false, Bool-cases, inl, inr, ltb,
  leb, ltb→lt, ltb→le, le→leb, lt→leb, if◌then◌else◌,
}
use hello_old.Clock.Calendar.{year_of_era, day_of_year, civil_from_days}

-- The days from 1970-01-01 to a date: the years begin in March, so that the leap day is a year's
-- last, and every fourth year is a leap year, but for the hundreds that 400 does not divide.
abbrev pub days_to : ℕ × ℕ × ℕ → ℕ
days_to (y, m, d) =
    let march_year = if leb m 2 then y - 1 else y in
    let month = if leb m 2 then m + 9 else m - 3 in
    365 * march_year
    + march_year / 4
    - march_year / 100
    + march_year / 400
    + (153 * month + 2) / 5
    + d
    - 1
    - 719468

abbrev pub days_before : ℕ → ℕ
days_before yoe = 365 * yoe + yoe / 4 - yoe / 100

pub year-fits : (doe : ℕ) → doe < 146097 → year_of_era doe < 400
year-fits doe h = omega arith

pub year-starts : (doe : ℕ) → doe < 146097 → days_before (year_of_era doe) ≤ doe
year-starts doe h = omega arith

pub year-ends : (doe : ℕ) → doe < 146097 → doe ≤ 365 + days_before (year_of_era doe)
year-ends doe h = omega arith

-- The day of the month and the month that begins in March, put together again.
month-starts : (doy : ℕ) → (153 * ((5 * doy + 2) / 153) + 2) / 5 ≤ doy
month-starts doy = omega arith

count :
    (era yoe doy mp d : ℕ)
    → yoe < 400
    → (153 * mp + 2) / 5 + d ≡ doy + 1
    → 365 * (yoe + era * 400)
        + (yoe + era * 400) / 4
        - (yoe + era * 400) / 100
        + (yoe + era * 400) / 400
        + (153 * mp + 2) / 5
        + d
        - 1
      ≡ era * 146097 + days_before yoe + doy
count era yoe doy mp d small e = omega arith

-- Months from January on, with the year that they belong to, count like months from March on.
march_days : ℕ → ℕ → ℕ → ℕ
march_days y mp d = 365 * y + y / 4 - y / 100 + y / 400 + (153 * mp + 2) / 5 + d - 1 - 719468

unfoldable pub month_of : ℕ → ℕ
month_of mp = if ltb mp 10 then mp + 3 else mp - 9

days_to-march :
    (y mp d : ℕ)
    → mp ≤ 11
    → days_to (if leb (month_of mp) 2 then y + 1 else y, month_of mp, d) ≡ march_days y mp d
unfolding month_of march_days
days_to-march y mp d small = elim (Bool-cases (ltb mp 10)) [
  | inl early ↦
      let late_month : leb (mp + 3) 2 ≡ false = lt→leb (mp + 3) 2 (omega arith) in
      let back : mp + 3 - 3 ≡ mp = omega arith in rw (early, late_month, back) refl
  | inr late ↦
      let bound = ltb→le mp 10 late in
      let early_month : leb (mp - 9) 2 ≡ true = le→leb (mp - 9) 2 (omega (arith, small)) in
      let year : y + 1 - 1 ≡ y = omega arith in
      let back : mp - 9 + 9 ≡ mp = omega (arith, bound) in rw (late, early_month, year, back) refl
]

pub month-bounds : (mp : ℕ) → mp ≤ 11 → (1 ≤ month_of mp) × (month_of mp ≤ 12)
unfolding month_of
month-bounds mp small = elim (Bool-cases (ltb mp 10)) [
  | inl early ↦ let below = ltb→lt mp 10 early in rw early (omega arith, omega (arith, below))
  | inr late ↦ let bound = ltb→le mp 10 late in rw late (omega (arith, bound), omega (arith, small))
]

pub last-month : (doy : ℕ) → doy ≤ 365 → (5 * doy + 2) / 153 ≤ 11
last-month doy h = omega arith

day-bound : (doy : ℕ) → doy - (153 * ((5 * doy + 2) / 153) + 2) / 5 + 1 ≤ 31
day-bound doy = omega arith

pub era-day : (zz : ℕ) → zz - zz / 146097 * 146097 < 146097
era-day zz = omega arith

-- The date is the day that was asked for, the month is from 1 to 12 and the day from 1 to 31.
pub days_to-civil_from_days :
    (z : ℕ)
    → (days_to (civil_from_days z) ≡ z)
      × (1 ≤ (civil_from_days z).1)
      × ((civil_from_days z).1 ≤ 12)
      × (1 ≤ (civil_from_days z).2)
      × ((civil_from_days z).2 ≤ 31)
unfolding civil_from_days month_of march_days
days_to-civil_from_days z =
    let zz = z + 719468 in
    let era = zz / 146097 in
    let doe = zz - era * 146097 in
    let inside = era-day zz in
    let yoe = year_of_era doe in
    let doy = day_of_year doe in
    let starts = year-starts doe inside in
    let ends = year-ends doe inside in
    let mp = (5 * doy + 2) / 153 in
    let d = doy - (153 * mp + 2) / 5 + 1 in
    let small = last-month doy (omega (arith, starts, ends)) in
    let (low, high) = month-bounds mp small in
    let total = count era yoe doy mp d (year-fits doe inside) (omega (arith, month-starts doy)) in
    (
      days_to-march (yoe + era * 400) mp d small ∙ omega (arith, total, starts, inside),
      low,
      high,
      omega arith,
      day-bound doy,
    )
