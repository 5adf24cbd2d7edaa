-- ===== src/Calendar/Tests.antt =====
-- Next runs from concrete times.
use pfortainer.Base.{ℕ, ◌+◌, ◌-◌, ◌*◌, ◌≤◌, ◌<◌, ◌≡◌, refl, arith, codes, text_eq}
use pfortainer.Store.{Time, unix}
use pfortainer.Calendar.{
  Zone, second, day, truncate, local_day, weekday, until_monday, date, first_of_month, month_start,
  month_length, month_from, next_run_time,
}
use pfortainer.Calendar.Next.{Since1970, next_run_within}
use pfortainer.Calendar.Boundary.{next_run_boundary}

-- 1970-01-31 12:30:00 in Seoul, a Saturday.
abbrev seoul : Zone
seoul = record { east = 32400; west = 0 }

abbrev noon : Time
noon = (30 * 86400 + 3 * 3600 + 1800) * second

noon-Since1970 : Since1970 seoul noon
unfolding unix
noon-Since1970 = omega arith

next_run_within_example :
    (noon < next_run_time (codes "weekly") seoul noon)
    × (next_run_time (codes "weekly") seoul noon ≤ noon + 7 * day)
unfolding text_eq
next_run_within_example = next_run_within (codes "weekly") seoul noon noon-Since1970

noon_late : 18000 ≤ unix noon
unfolding unix
noon_late = omega arith

next_run_boundary_example :
    (k : ℕ) × (next_run_time (codes "monthly") seoul noon
      ≡ (month_start k * 86400 + 0 - 32400) * second)
unfolding text_eq
next_run_boundary_example = next_run_boundary (codes "monthly") seoul noon noon-Since1970

-- Midnight of 1970-02-01 in Seoul.
february : next_run_time (codes "monthly") seoul noon ≡ (31 * 86400 - 32400) * second
unfolding next_run_time text_eq date local_day first_of_month month_start month_length month_from
    unix
february = refl

-- Midnight UTC of Monday 1970-02-02.
monday : next_run_time (codes "weekly") seoul noon ≡ 32 * 86400 * second
unfolding next_run_time text_eq truncate until_monday weekday local_day unix
monday = refl
