-- ===== src/Calendar/Next.antt =====
-- When a schedule runs next: later than now, within its period, and on its boundary.
use pfortainer.Base.{
  ℕ, zero, suc, ◌+◌, ◌-◌, ◌*◌, ◌%◌, ◌≤◌, ◌<◌, ◌≡◌, refl, ◌≢◌, inl, inr, arith, Text, codes, text_eq,
  ◌==◌, if◌then◌else◌, Bool-cases,
}
use pfortainer.Store.{Time, unix}
use pfortainer.Calendar.{
  Zone, hour, day, truncate, local_day, weekday, until_monday, date, first_of_month, next_run_time,
}
use pfortainer.Calendar.Months.{next_month}

truncate-hour :
    (t : Time) → (truncate t hour ≤ t) × (t < truncate t hour + hour) × (truncate t hour % hour ≡ 0)
unfolding truncate
truncate-hour t = (omega arith, omega arith, omega arith)

truncate-day :
    (t : Time) → (truncate t day ≤ t) × (t < truncate t day + day) × (truncate t day % day ≡ 0)
unfolding truncate
truncate-day t = (omega arith, omega arith, omega arith)

-- The location's clocks have not yet reached 1970.
abbrev pub Since1970 : Zone → Time → Type 0
Since1970 z t = z.west ≤ unix t + z.east

weekday_step : (z : Zone) (d : Time) → Since1970 z d → weekday z (d + day) ≡ (weekday z d + 1) % 7
unfolding weekday local_day unix
weekday_step z d h = omega arith

Since1970-add : (z : Zone) (t n : Time) → Since1970 z t → Since1970 z (t + n)
unfolding unix
Since1970-add z t n h = omega arith

weekday_lt : (z : Zone) (d : Time) → weekday z d < 7
unfolding weekday
weekday_lt z d = omega arith

-- Days from a weekday to the next Monday, none on Mondays.
abbrev to_monday : ℕ → ℕ
to_monday w = (8 - w) % 7

to_monday_step : (w f : ℕ) → w < 7 → w ≢ 1 → to_monday w ≤ suc f → to_monday ((w + 1) % 7) ≤ f
to_monday_step w f h ne le = omega arith

abbrev pub IsNextMonday : Zone → Time → ℕ → Time → Type 0
IsNextMonday z d fuel r = (weekday z r ≡ 1) × (d ≤ r) × (r ≤ d + fuel * day) × (r % day ≡ d % day)

until_monday_lem :
    (fuel : ℕ) (z : Zone) (d : Time)
    → Since1970 z d
    → to_monday (weekday z d) ≤ fuel
    → IsNextMonday z d fuel (until_monday fuel z d)
unfolding until_monday
until_monday_lem zero z d h f = (omega (arith, weekday_lt z d), omega arith, omega arith, refl)
until_monday_lem (suc fuel) z d h f = elim (Bool-cases (weekday z d == 1)) [
  | inl e ↦ rw e (ground arith, omega arith, omega arith, refl)
  | inr e ↦ rw e (
      later (
        until_monday_lem fuel z (d + day) (Since1970-add z d day h) (
          rw (weekday_step z d h)
            (to_monday_step (weekday z d) fuel (weekday_lt z d) (ground arith) f))))
]
  where
    later : {r : Time} → IsNextMonday z (d + day) fuel r → IsNextMonday z d (suc fuel) r
    later (mon, lo, hi, al) = (mon, omega arith, omega arith, omega arith)

-- The longest time to the next run.
abbrev pub period : Text → ℕ
period frequency =
    if text_eq frequency (codes "hourly")
    then hour
    else if text_eq frequency (codes "daily")
    then day
    else if text_eq frequency (codes "weekly")
    then 7 * day
    else if text_eq frequency (codes "monthly")
    then 31 * day
    else day

abbrev Within : ℕ → Time → Time → Type 0
Within p from next = (from < next) × (next ≤ from + p)

hourly-Within : (t : Time) → Within hour t (truncate t hour + hour)
hourly-Within t = let (lo, hi, al) = truncate-hour t in (hi, omega arith)

daily-Within : (t : Time) → Within day t (truncate t day + day)
daily-Within t = let (lo, hi, al) = truncate-day t in (hi, omega arith)

tomorrow_Since1970 : (z : Zone) (t : Time) → Since1970 z t → Since1970 z (truncate t day + day)
unfolding truncate unix
tomorrow_Since1970 z t h = omega arith

pub weekly_lem :
    (z : Zone) (t : Time)
    → Since1970 z t
    → IsNextMonday z (truncate t day + day) 6 (until_monday 6 z (truncate t day + day))
weekly_lem z t h =
    until_monday_lem 6 z (truncate t day + day) (tomorrow_Since1970 z t h) (omega arith)

weekly-Within :
    (z : Zone) (t : Time)
    → Since1970 z t
    → Within (7 * day) t (until_monday 6 z (truncate t day + day))
weekly-Within z t h =
    let (mon, lo, hi, al) = weekly_lem z t h in
    let (tlo, thi, tal) = truncate-day t in (omega arith, omega arith)

monthly-Within :
    (z : Zone) (t : Time)
    → Since1970 z t
    → Within (31 * day) t (let (y, m) = date (local_day z t) in first_of_month z y (m + 1))
unfolding local_day unix
monthly-Within z t h =
    let (k, e, lo, hi, span) = next_month z (local_day z t) in rw e (omega arith, omega arith)

-- For a location of a fixed offset from UTC, from a time at which its clocks have reached 1970, the
-- next run is later than that time, and at most the period of its frequency later: an hour, a day,
-- 7 days, 31 days, or a day for any other frequency.
pub next_run_within :
    (frequency : Text) (z : Zone) (from : Time)
    → Since1970 z from
    → (from < next_run_time frequency z from)
      × (next_run_time frequency z from ≤ from + period frequency)
unfolding next_run_time
next_run_within frequency z from h =
    ground (
      arith,
      hourly-Within from,
      daily-Within from,
      weekly-Within z from h,
      monthly-Within z from h,
    )
