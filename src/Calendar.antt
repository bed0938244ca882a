-- ===== src/Calendar.antt =====
-- The tests on dates and times of src/tools/CDateTime.cpp. An `int` is an integer.
pub mod Laws
mod Tests
use bloom_server.Base.{ℕ, suc, ◌%◌, Bool, true, false, not, ◌&&◌, ◌||◌, ltb, ◌==◌, if◌then◌else◌}

pub data ℤ : Type 0 where
  pos negsuc : ℕ → ℤ

-- `x < k`
abbrev pub below : ℤ → ℕ → Bool
below (pos n) k = ltb n k
below (negsuc n) k = true

-- `x == k`
abbrev pub equals : ℤ → ℕ → Bool
equals (pos n) k = n == k
equals (negsuc n) k = false

-- `x % k == 0`
abbrev pub divides : ℕ → ℤ → Bool
divides k (pos n) = n % k == 0
divides k (negsuc n) = suc n % k == 0

unfoldable pub is_leap_year : ℤ → Bool
is_leap_year year = (divides 4 year && not (divides 100 year)) || divides 400 year

-- `ValidateDate(year)`
unfoldable pub validate_year : ℤ → Bool
validate_year year = not (below year 1) && below year 10000

-- `ValidateDate(year, month)`
unfoldable pub validate_month : ℤ → ℤ → Bool
unfolding validate_year
validate_month year month =
    if not (validate_year year) then false else not (below month 1) && below month 13

unfoldable pub get_days_of_month : ℤ → ℤ → ℕ
unfolding is_leap_year validate_month
get_days_of_month year month =
    if not (validate_month year month)
    then 0
    else if equals month 4 || equals month 6 || equals month 9 || equals month 11
    then 30
    else if equals month 1
        || equals month 3
        || equals month 5
        || equals month 7
        || equals month 8
        || equals month 10
        || equals month 12
    then 31
    else if equals month 2
    then if is_leap_year year then 29 else 28
    else 0

-- `day > bound`
abbrev above : ℤ → ℕ → Bool
above day bound = not (below day (suc bound))

-- `ValidateDate(year, month, day)`
unfoldable pub validate_date : ℤ → ℤ → ℤ → Bool
unfolding get_days_of_month
validate_date year month day =
    if not (validate_month year month)
    then false
    else if below day 1 || above day (get_days_of_month year month)
    then false
    else true

-- `ValidateTime(hour)`
unfoldable pub validate_hour : ℤ → Bool
validate_hour hour = not (below hour 0) && below hour 24

-- `ValidateTime(hour, minute)`
unfoldable pub validate_minute : ℤ → ℤ → Bool
unfolding validate_hour
validate_minute hour minute =
    if not (validate_hour hour) then false else not (below minute 0) && below minute 60

-- `ValidateTime(hour, minute, second)`
unfoldable pub validate_time : ℤ → ℤ → ℤ → Bool
unfolding validate_minute
validate_time hour minute second =
    if not (validate_minute hour minute) then false else not (below second 0) && below second 60

unfoldable pub validate_date_time : ℤ → ℤ → ℤ → ℤ → ℤ → ℤ → Bool
unfolding validate_date validate_time
validate_date_time year month day hour minute second =
    validate_date year month day && validate_time hour minute second
