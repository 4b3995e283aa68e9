-- ===== src/Clock/Gregorian.antt =====
-- src/main.rs, `civil_from_days`, against the dates of the Gregorian calendar.
use hello_old.Base.{
  ◌%◌, ℕ, ◌+◌, ◌-◌, ◌*◌, ◌/◌, ◌<◌, ◌≤◌, ◌≡◌, refl, sym, ◌∙◌, arith, true, leb, if◌then◌else◌,
}
use hello_old.Clock.Calendar.{year_of_era, day_of_year, civil_from_days}
use hello_old.Clock.Count.{
  days_to, days_before, month_of, year-fits, year-starts, year-ends, era-day, last-month,
  month-bounds, days_to-civil_from_days,
}
use hello_old.Clock.Date.{is_leap, days_in_month, IsDate, days_to_year, days_to-injective}

year-ends-exact :
    (doe : ℕ) → doe < 146097 → doe < days_before (year_of_era doe + 1) + (year_of_era doe + 1) / 400
year-ends-exact doe h = omega arith

leap-step :
    (n : ℕ)
    → n < 400
    → days_before n + 365 < days_before (n + 1) + (n + 1) / 400
    → is_leap (n + 1) ≡ true
leap-step n small gains = ground arith

is_leap-era : (n era : ℕ) → is_leap (n + era * 400) ≡ is_leap n
is_leap-era n era =
    let four : (n + era * 400) % 4 ≡ n % 4 = omega arith in
    let hundred : (n + era * 400) % 100 ≡ n % 100 = omega arith in
    let four_hundred : (n + era * 400) % 400 ≡ n % 400 = omega arith in
    rw (four, hundred, four_hundred) refl

-- The day of the month is within the length of the month `mp` after the March of `y`.
last-day :
    (y mp doy : ℕ)
    → mp ≡ (5 * doy + 2) / 153
    → doy ≤ 365
    → (doy ≡ 365 → is_leap (y + 1) ≡ true)
    → doy - (153 * mp + 2) / 5 + 1
      ≤ days_in_month (if leb (month_of mp) 2 then y + 1 else y) (month_of mp)
unfolding month_of
last-day y mp doy e small leap = ground arith

first-year :
    (y doy mp : ℕ)
    → 719468 ≤ days_to_year y + doy
    → doy ≤ 365
    → mp ≡ (5 * doy + 2) / 153
    → 1970 ≤ (if leb (month_of mp) 2 then y + 1 else y)
unfolding month_of
first-year y doy mp big small e = ground arith

after-epoch :
    (era yoe doe zz : ℕ)
    → yoe < 400
    → days_before yoe ≤ doe
    → era * 146097 + doe ≡ zz
    → 719468 ≤ zz
    → 719468 ≤ days_to_year (yoe + era * 400) + (doe - days_before yoe)
after-epoch era yoe doe zz small starts e big = omega arith

-- A year of 366 days ends with a leap day.
leap-day :
    (era yoe doe : ℕ)
    → yoe < 400
    → days_before yoe ≤ doe
    → doe < days_before (yoe + 1) + (yoe + 1) / 400
    → doe - days_before yoe ≡ 365
    → is_leap (yoe + era * 400 + 1) ≡ true
leap-day era yoe doe small starts ends full =
    let moved : yoe + era * 400 + 1 ≡ yoe + 1 + era * 400 = omega arith in
    rw (moved, is_leap-era (yoe + 1) era) (leap-step yoe small (omega arith))

date_of : (z : ℕ) → IsDate (civil_from_days z)
unfolding civil_from_days month_of
date_of z =
    let zz = z + 719468 in
    let era = zz / 146097 in
    let doe = zz - era * 146097 in
    let inside = era-day zz in
    let yoe = year_of_era doe in
    let doy = day_of_year doe in
    let starts = year-starts doe inside in
    let ends = year-ends doe inside in
    let mp = (5 * doy + 2) / 153 in
    let fits = year-fits doe inside in
    let small : doy ≤ 365 = omega (arith, starts, ends) in
    record {
      from_1970 =
          first-year (yoe + era * 400) doy mp
            (after-epoch era yoe doe zz fits starts (omega arith) (omega arith)) small refl;
      month_in = month-bounds mp (last-month doy small);
      day_in = (
        omega arith,
        last-day (yoe + era * 400) mp doy refl small
            (leap-day era yoe doe fits starts (year-ends-exact doe inside)),
      );
    }

-- `civil_from_days` gives the date of the Gregorian calendar: for every number of days since
-- 1970-01-01, a date of the calendar (the day is one of its month, with the leap years), which is that
-- many days after 1970-01-01, and the only date that is.
pub civil_from_days-IsDate :
    (z : ℕ)
    → IsDate (civil_from_days z)
      × (days_to (civil_from_days z) ≡ z)
      × ((date : ℕ × ℕ × ℕ) → IsDate date → days_to date ≡ z → date ≡ civil_from_days z)
civil_from_days-IsDate z =
    let is_date = date_of z in
    let counted = (days_to-civil_from_days z).0 in
    (
      is_date,
      counted,
      λ date h e. days_to-injective date (civil_from_days z) h is_date (e ∙ sym counted),
    )
