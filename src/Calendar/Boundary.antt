-- ===== src/Calendar/Boundary.antt =====
-- Which instants the schedules run at.
use pfortainer.Base.{
  ℕ, suc, ◌+◌, ◌-◌, ◌*◌, ◌%◌, ◌≤◌, ◌<◌, ◌≡◌, refl, ◌∙◌, inl, inr, arith, Text, codes, text_eq,
  if◌then◌else◌, Bool-cases,
}
use pfortainer.Store.{Time, unix}
use pfortainer.Calendar.{
  Zone, utc, second, hour, day, truncate, local_day, weekday, until_monday, date, first_of_month,
  month_start, next_run_time,
}
use pfortainer.Calendar.Months.{next_month}
use pfortainer.Calendar.Next.{Since1970, weekly_lem}

-- The boundary of each frequency: a full hour, a midnight UTC, a midnight UTC on a day that is
-- Monday on the location's clocks, the first second of a month on the location's clocks.
abbrev pub OnBoundary : Text → Zone → Time → Type 0
OnBoundary frequency z t =
    if text_eq frequency (codes "hourly")
    then t % hour ≡ 0
    else if text_eq frequency (codes "daily")
    then t % day ≡ 0
    else if text_eq frequency (codes "weekly")
    then (t % day ≡ 0) × (weekday z t ≡ 1)
    else if text_eq frequency (codes "monthly")
    then ((k : ℕ) × (t ≡ (month_start k * 86400 + z.west - z.east) * second))
    else Unit

aligned_day : (t : Time) → (truncate t day + day) % day ≡ 0
unfolding truncate
aligned_day t = omega arith

aligned_hour : (t : Time) → (truncate t hour + hour) % hour ≡ 0
unfolding truncate
aligned_hour t = omega arith

aligned_weekly :
    (z : Zone) (t : Time)
    → Since1970 z t
    → (until_monday 6 z (truncate t day + day) % day ≡ 0)
      × (weekday z (until_monday 6 z (truncate t day + day)) ≡ 1)
aligned_weekly z t h = let (mon, lo, hi, al) = weekly_lem z t h in (al ∙ aligned_day t, mon)

aligned_monthly :
    (z : Zone) (t : Time)
    → (k : ℕ) × ((let (y, m) = date (local_day z t) in first_of_month z y (m + 1))
        ≡ (month_start k * 86400 + z.west - z.east) * second)
aligned_monthly z t = let (k, e, lo, hi, span) = next_month z (local_day z t) in (suc k, e)

-- For a location of a fixed offset from UTC, from a time at which its clocks have reached 1970, an
-- hourly next run is at a full hour UTC, a daily one at midnight UTC, a weekly one at midnight UTC
-- while the location's clocks show a Monday, and a monthly one in the first second of a month on
-- the location's clocks.
pub next_run_boundary :
    (frequency : Text) (z : Zone) (from : Time)
    → Since1970 z from
    → OnBoundary frequency z (next_run_time frequency z from)
unfolding next_run_time
next_run_boundary frequency z from h = elim (Bool-cases (text_eq frequency (codes "hourly"))) [
  | inl e ↦ rw (next_run_time, e) (aligned_hour from)
  | inr n₁ ↦ elim (Bool-cases (text_eq frequency (codes "daily"))) [
    | inl e ↦ rw (next_run_time, n₁, e) (aligned_day from)
    | inr n₂ ↦ elim (Bool-cases (text_eq frequency (codes "weekly"))) [
      | inl e ↦ rw (next_run_time, n₁, n₂, e) (aligned_weekly z from h)
      | inr n₃ ↦ elim (Bool-cases (text_eq frequency (codes "monthly"))) [
        | inl e ↦ rw (next_run_time, n₁, n₂, n₃, e) (aligned_monthly z from)
        | inr n₄ ↦ rw (next_run_time, n₁, n₂, n₃, n₄) tt
      ]
    ]
  ]
]

weekly_runs :
    (z : Zone) (from : Time)
    → next_run_time (codes "weekly") z from ≡ until_monday 6 z (truncate from day + day)
unfolding next_run_time text_eq
weekly_runs z from = refl

west_of_monday :
    (w : ℕ) (t : Time)
    → 0 < w
    → w ≤ 43200
    → t % day ≡ 0
    → day ≤ t
    → weekday (record { east = 0; west = w }) t ≡ 1
    → weekday utc t ≡ 2
unfolding weekday local_day unix
west_of_monday w t pos small al late mon = omega arith

-- At a location up to twelve hours west of Greenwich whose clocks have reached 1970, the weekly
-- next run is on a Tuesday in UTC.
pub weekly_west_is_tuesday :
    (w : ℕ) (from : Time)
    → 0 < w
    → w ≤ 43200
    → w ≤ unix from
    → weekday utc (next_run_time (codes "weekly") (record { east = 0; west = w }) from) ≡ 2
weekly_west_is_tuesday w from pos small since =
    let z : Zone = record { east = 0; west = w } in
    let (al, mon) = aligned_weekly z from (omega arith) in
    let (mon', lo, hi, al') = weekly_lem z from (omega arith) in
    rw weekly_runs (west_of_monday w _ pos small al (omega arith) mon)
