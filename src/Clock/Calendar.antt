-- ===== src/Clock/Calendar.antt =====
-- src/main.rs, `civil_from_days`: year, month and day of a day counted from 1970-01-01. The callers
-- divide a `u64` of seconds by 86400, so the days are not negative and nothing wraps.
use hello_old.Base.{ℕ, ◌+◌, ◌-◌, ◌*◌, ◌/◌, ltb, leb, if◌then◌else◌}

-- The day of the era, from 0 to 146096, and the year of the era.
abbrev pub year_of_era : ℕ → ℕ
year_of_era doe = (doe - doe / 1460 + doe / 36524 - doe / 146096) / 365

abbrev pub day_of_year : ℕ → ℕ
day_of_year doe = let yoe = year_of_era doe in doe - (365 * yoe + yoe / 4 - yoe / 100)

unfoldable pub civil_from_days : ℕ → ℕ × ℕ × ℕ
civil_from_days z =
    let zz = z + 719468 in
    let era = zz / 146097 in
    let doe = zz - era * 146097 in
    let y = year_of_era doe + era * 400 in
    let doy = day_of_year doe in
    let mp = (5 * doy + 2) / 153 in
    let d = doy - (153 * mp + 2) / 5 + 1 in
    let m = if ltb mp 10 then mp + 3 else mp - 9 in (if leb m 2 then y + 1 else y, m, d)
