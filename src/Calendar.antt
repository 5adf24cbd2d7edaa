-- ===== src/Calendar.antt =====
-- scheduler.go: nextRunTime, with what it uses of package time. A time is in nanoseconds since
-- 1970 UTC; a location is a fixed offset from UTC, in seconds east less seconds west.
-- Both hours and days since 1970 are those since Go's zero time, 719162 whole days before.
pub mod Months
pub mod Next
pub mod Boundary
pub mod Seconds
mod Tests
use pfortainer.Base.{
  ℕ, zero, suc, ◌+◌, ◌-◌, ◌*◌, ◌/◌, ◌%◌, Bool, not, ◌&&◌, ◌||◌, Text, codes, text_eq, ltb, ◌==◌,
  if◌then◌else◌,
}
use pfortainer.Store.{Time, unix}

pub record Zone : Type 0 where
  pub east : ℕ
  pub west : ℕ

abbrev pub utc : Zone
utc = record { east = 0; west = 0 }

abbrev pub second : ℕ
second = 1000000000

abbrev pub hour : ℕ
hour = 3600 * second

abbrev pub day : ℕ
day = 24 * hour

-- Time.Truncate.
unfoldable pub truncate : Time → ℕ → Time
truncate t d = t - t % d

-- Whole days since 1970 on the clocks of the location.
unfoldable pub local_day : Zone → Time → ℕ
unfolding unix
local_day z t = (unix t + z.east - z.west) / 86400

-- Time.Weekday: 0 is Sunday, and 1970 began on a Thursday.
unfoldable pub weekday : Zone → Time → ℕ
unfolding local_day
weekday z t = (local_day z t + 4) % 7

abbrev pub is_leap : ℕ → Bool
is_leap y = y % 4 == 0 && not (y % 100 == 0) || y % 400 == 0

-- Months are counted from January 1970, which is month 0.
unfoldable pub month_length : ℕ → ℕ
month_length k =
    let m = k % 12 in
    if m == 1
    then (if is_leap (1970 + k / 12) then 29 else 28)
    else if m == 3 || m == 5 || m == 8 || m == 10
    then 30
    else 31

-- The day on which month k begins.
unfoldable pub month_start : ℕ → ℕ
unfolding month_length
month_start zero = 0
month_start (suc k) = month_start k + month_length k

-- The month that day d falls in, looked for from month k, which begins on day `start`.
unfoldable pub month_from : ℕ → ℕ → ℕ → ℕ → ℕ
unfolding month_length
month_from zero k start d = k
month_from (suc fuel) k start d =
    let later = month_from fuel (suc k) (start + month_length k) d in
    if ltb d (start + month_length k) then k else later

-- Time.Date: the year and the month, from 1, of a day.
unfoldable pub date : ℕ → ℕ × ℕ
unfolding month_from
date d = let k = month_from (d + 1) 0 0 d in (1970 + k / 12, k % 12 + 1)

-- time.Date(y, m, 1, 0, 0, 0, 0, loc): month 13 is January of the next year.
unfoldable pub first_of_month : Zone → ℕ → ℕ → Time
unfolding month_start
first_of_month z y m = (month_start ((y - 1970) * 12 + (m - 1)) * 86400 + z.west - z.east) * second

-- The loop of the weekly case.
unfoldable pub until_monday : ℕ → Zone → Time → Time
unfolding weekday
until_monday zero z d = d
until_monday (suc fuel) z d =
    let next = until_monday fuel z (d + day) in if weekday z d == 1 then d else next

-- Six steps reach a Monday from any day.
unfoldable pub next_run_time : Text → Zone → Time → Time
unfolding text_eq truncate until_monday date local_day first_of_month
next_run_time frequency z from =
    if text_eq frequency (codes "hourly")
    then truncate from hour + hour
    else if text_eq frequency (codes "daily")
    then truncate from day + day
    else if text_eq frequency (codes "weekly")
    then until_monday 6 z (truncate from day + day)
    else if text_eq frequency (codes "monthly")
    then (let (y, m) = date (local_day z from) in first_of_month z y (m + 1))
    else from + day
