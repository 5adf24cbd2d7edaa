-- ===== src/Calendar/Seconds.antt =====
-- The next run is in a later second.
use pfortainer.Base.{
  ℕ, ◌+◌, ◌-◌, ◌*◌, ◌%◌, ◌≤◌, ◌<◌, ◌≡◌, refl, inl, inr, false, arith, Text, codes, text_eq,
  Bool-cases,
}
use pfortainer.Calendar.{Zone, next_run_time, hour, day, second, month_start}
use pfortainer.Calendar.Next.{Since1970, next_run_within}
use pfortainer.Calendar.Boundary.{OnBoundary, next_run_boundary}
use pfortainer.Store.{Time, unix}

later_second : (s t : Time) → s < t → t % second ≡ 0 → unix s < unix t
unfolding unix
later_second s t h e = omega arith

hour-second : (t : Time) → t % hour ≡ 0 → t % second ≡ 0
hour-second t h = omega arith

day-second : (t : Time) → t % day ≡ 0 → t % second ≡ 0
day-second t h = omega arith

pub unix_le : (a b : Time) → a ≤ b → unix a ≤ unix b
unfolding unix
unix_le a b h = omega arith

day_later : (t : Time) → unix t < unix (t + day)
unfolding unix
day_later t = omega arith

-- The boundary of a frequency is a whole second, and the default adds whole seconds.
next_second_of :
    (frequency : Text) (z : Zone) (from next : Time)
    → OnBoundary frequency z next
    → from < next
    → (text_eq frequency (codes "hourly") ≡ false
        → text_eq frequency (codes "daily") ≡ false
        → text_eq frequency (codes "weekly") ≡ false
        → text_eq frequency (codes "monthly") ≡ false
        → next ≡ from + day)
    → unix from < unix next
next_second_of frequency z from next on lt default =
    elim (Bool-cases (text_eq frequency (codes "hourly"))) [
      | inl e ↦ later_second from next lt (hour-second next (rw e at on))
      | inr n₁ ↦ elim (Bool-cases (text_eq frequency (codes "daily"))) [
        | inl e ↦ later_second from next lt (day-second next (rw (n₁, e) at on))
        | inr n₂ ↦ elim (Bool-cases (text_eq frequency (codes "weekly"))) [
          | inl e ↦ later_second from next lt (day-second next (rw (n₁, n₂, e) at on).0)
          | inr n₃ ↦ elim (Bool-cases (text_eq frequency (codes "monthly"))) [
            | inl e ↦ later_second from next lt (whole (rw (n₁, n₂, n₃, e) at on))
            | inr n₄ ↦ rw (default n₁ n₂ n₃ n₄) (day_later from)
          ]
        ]
      ]
    ]
  where
    whole :
        ((k : ℕ) × (next ≡ (month_start k * 86400 + z.west - z.east) * second)) → next % second ≡ 0
    whole (k, e) = omega arith

default_next :
    (frequency : Text) (z : Zone) (from : Time)
    → text_eq frequency (codes "hourly") ≡ false
    → text_eq frequency (codes "daily") ≡ false
    → text_eq frequency (codes "weekly") ≡ false
    → text_eq frequency (codes "monthly") ≡ false
    → next_run_time frequency z from ≡ from + day
unfolding next_run_time
default_next frequency z from a b c d = rw (next_run_time, a, b, c, d) refl

-- The next run is in a later second than the time that it is computed from.
pub next_second :
    (frequency : Text) (z : Zone) (from : Time)
    → Since1970 z from
    → unix from < unix (next_run_time frequency z from)
next_second frequency z from h =
    next_second_of frequency z from (next_run_time frequency z from)
      (next_run_boundary frequency z from h) (next_run_within frequency z from h).0
      (default_next frequency z from)
