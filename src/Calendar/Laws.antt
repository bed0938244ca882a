-- ===== src/Calendar/Laws.antt =====
-- The tests against the calendar.
use bloom_server.Base.{
  ℕ, suc, ◌+◌, ◌≤◌, ◌<◌, ◌≡◌, refl, ◌↔◌, Bool, true, false, not, ◌&&◌, ◌||◌, ltb, ◌==◌, ◌/◌, ◌%◌,
  if◌then◌else◌, arith,
}
use bloom_server.Calendar.{
  pos, is_leap_year, validate_year, validate_month, get_days_of_month, validate_date, validate_time,
  validate_date_time,
}

-- The leap years: every fourth year, but of the years that end a century every fourth one.
abbrev pub leap : ℕ → Bool
leap year = if year % 100 == 0 then (year / 100) % 4 == 0 else year % 4 == 0

-- The length of a month: 30 and 31 days by turns, with two of 31 where July meets August.
abbrev pub month_length : Bool → ℕ → ℕ
month_length long month =
    if month == 2 then (if long then 29 else 28) else 30 + (month + month / 8) % 2

-- The calendar: years 1 to 9999, the months of these lengths, 24 hours, 60 minutes and seconds.
pub record IsMoment (year month day hour minute second : ℕ) : Type 0 where
  pub years : (1 ≤ year) × (year ≤ 9999)
  pub months : (1 ≤ month) × (month ≤ 12)
  pub days : (1 ≤ day) × (day ≤ month_length (leap year) month)
  pub clock : (hour < 24) × (minute < 60) × (second < 60)

valid_year : (year : ℕ) → (1 ≤ year) × (year ≤ 9999) → validate_year (pos year) ≡ true
unfolding validate_year
valid_year year y = ground arith

is_leap_year-leap : (year : ℕ) → is_leap_year (pos year) ≡ leap year
unfolding is_leap_year
is_leap_year-leap year = ground arith

get_days_of_month-month_length :
    (year month : ℕ)
    → (1 ≤ year) × (year ≤ 9999)
    → (1 ≤ month) × (month ≤ 12)
    → get_days_of_month (pos year) (pos month) ≡ month_length (leap year) month
unfolding get_days_of_month
get_days_of_month-month_length year month y m =
    rw (valid_year year y, is_leap_year-leap year) (ground arith)

valid_clock :
    (hour minute second : ℕ)
    → (validate_time (pos hour) (pos minute) (pos second) ≡ true)
      ↔ ((hour < 24) × (minute < 60) × (second < 60))
unfolding validate_time
valid_clock hour minute second = ground arith

valid_month :
    (year month : ℕ)
    → (validate_month (pos year) (pos month) ≡ true)
      ↔ (((1 ≤ year) × (year ≤ 9999)) × ((1 ≤ month) × (month ≤ 12)))
unfolding validate_month
valid_month year month = ground arith

module _ (year month day hour minute second : ℕ) where
  -- `ValidateDateTime` in terms of the functions that it calls.
  abbrev parts : Bool
  parts =
      (if not (validate_month (pos year) (pos month))
        then false
        else if ltb day 1 || not (ltb day (suc (get_days_of_month (pos year) (pos month))))
        then false
        else true)
      && validate_time (pos hour) (pos minute) (pos second)

  validate_date_time-parts :
      validate_date_time (pos year) (pos month) (pos day) (pos hour) (pos minute) (pos second)
      ≡ parts
  unfolding validate_date_time validate_date
  validate_date_time-parts = refl

  parts-IsMoment : parts ≡ true → IsMoment year month day hour minute second
  parts-IsMoment h =
      let vm : validate_month (pos year) (pos month) ≡ true = ground arith in
      let vt : validate_time (pos hour) (pos minute) (pos second) ≡ true = ground arith in
      let (y, m) = (valid_month year month).0 vm in
      let size = get_days_of_month-month_length year month y m in
      let range : (1 ≤ day) × (day ≤ get_days_of_month (pos year) (pos month)) = ground arith in
      record {
        years = y;
        months = m;
        days = rw size at range;
        clock = (valid_clock hour minute second).0 vt;
      }

  IsMoment-parts : IsMoment year month day hour minute second → parts ≡ true
  IsMoment-parts d =
      let vm = (valid_month year month).1 (d.years, d.months) in
      let vt = (valid_clock hour minute second).1 d.clock in
      let size = get_days_of_month-month_length year month d.years d.months in
      let range : (1 ≤ day) × (day ≤ get_days_of_month (pos year) (pos month)) = rw size d.days in
      rw (vm, vt) (ground arith)

  -- On numbers that are not negative, `ValidateDateTime` holds exactly of the moments of the calendar
  -- from the year 1 to 9999: months of 31 and 30 days by turns, but for February with 29 days in every
  -- fourth year, except in those ends of a century whose century is no multiple of four, and 28 in the
  -- others, and 24 hours of 60 minutes of 60 seconds.
  pub validate_date_time-IsMoment :
      (validate_date_time (pos year) (pos month) (pos day) (pos hour) (pos minute) (pos second)
        ≡ true)
      ↔ IsMoment year month day hour minute second
  validate_date_time-IsMoment = rw validate_date_time-parts (parts-IsMoment, IsMoment-parts)

-- A year of 1 to 9999 has 365 or 366 days over its months.
pub year_length :
    (year : ℕ)
    → (1 ≤ year) × (year ≤ 9999)
    → let days = λ (month : ℕ). get_days_of_month (pos year) (pos month) in
      days 1
        + days 2
        + days 3
        + days 4
        + days 5
        + days 6
        + days 7
        + days 8
        + days 9
        + days 10
        + days 11
        + days 12
      ≡ (if is_leap_year (pos year) then 366 else 365)
unfolding get_days_of_month
year_length year y = rw (valid_year year y) (ground arith)
