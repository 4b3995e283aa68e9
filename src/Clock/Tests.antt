-- ===== src/Clock/Tests.antt =====
-- Dates and drifts, and instances of the theorems.
use hello_old.Base.{ℕ, ◌+◌, ◌≡◌, refl, true, false, List, [], ◌∷◌, some, length}
use hello_old.Clock.Toy.{naturals}
use hello_old.Clock.Ntp.{Answer, packet}
use hello_old.Clock.Consensus.{good, insert, sort, consensus}
use hello_old.Clock.Anchor.{ClockAnchor, new, sane}
use hello_old.Clock.Calendar.{civil_from_days}
use hello_old.Clock.Count.{days_to}
use hello_old.Clock.Date.{IsDate}
use hello_old.Clock.Gregorian.{civil_from_days-IsDate}

epoch : civil_from_days 0 ≡ (1970, 1, 1)
unfolding civil_from_days
epoch = refl

-- The day of the opening.
opening : civil_from_days 20312 ≡ (2025, 8, 12)
unfolding civil_from_days
opening = refl

leap_day : civil_from_days 11016 ≡ (2000, 2, 29)
unfolding civil_from_days
leap_day = refl

civil_from_days-IsDate_example :
    IsDate (civil_from_days 20312)
    × (days_to (civil_from_days 20312) ≡ 20312)
    × ((date : ℕ × ℕ × ℕ) → IsDate date → days_to date ≡ 20312 → date ≡ civil_from_days 20312)
civil_from_days-IsDate_example = civil_from_days-IsDate 20312

abbrev answer : ℕ → Answer naturals
answer d = record { now = 1755000000 + d; drift = d }

abbrev answers : List (Answer naturals)
answers = answer 7 ∷ answer 30 ∷ answer 1 ∷ answer 4 ∷ []

takes_middle : consensus naturals answers ≡ some (answer 4)
unfolding consensus good sort insert
takes_middle = refl

packet_size : length (packet 1755000000) ≡ 48
unfolding packet
packet_size = refl

abbrev anchor : ClockAnchor naturals
anchor = new naturals (100, 0) (1755000000, 0)

-- A minute later by both clocks.
steady : sane naturals anchor (160, 0) (1755000061, 0) ≡ true
unfolding sane
steady = refl

set_ahead : sane naturals anchor (160, 0) (1755000062, 0) ≡ false
unfolding sane
set_ahead = refl
