-- ===== src/Calendar/Tests.antt =====
-- The theorems on the calendar, at a leap day.
use bloom_server.Base.{ℕ, ◌+◌, ◌≡◌, ◌↔◌, true, if◌then◌else◌, arith}
use bloom_server.Calendar.{pos, is_leap_year, get_days_of_month, validate_date_time}
use bloom_server.Calendar.Laws.{IsMoment, validate_date_time-IsMoment, year_length}

validate_date_time-IsMoment_example :
    (validate_date_time (pos 2012) (pos 2) (pos 29) (pos 23) (pos 59) (pos 59) ≡ true)
    ↔ IsMoment 2012 2 29 23 59 59
validate_date_time-IsMoment_example = validate_date_time-IsMoment 2012 2 29 23 59 59

year_length_test :
    let days = λ (month : ℕ). get_days_of_month (pos 2012) (pos month) in
    days 1
      + days 2
      + days 3
      + days 4
      + days 5
      + days 6
      + days 7
      + days 8
      + days 9
      + days 10
      + days 11
      + days 12
    ≡ (if is_leap_year (pos 2012) then 366 else 365)
year_length_test = year_length 2012 (omega arith, omega arith)
