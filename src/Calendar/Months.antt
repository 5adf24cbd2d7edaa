-- ===== src/Calendar/Months.antt =====
-- The calendar: a day lies in the month that Time.Date gives.
use pfortainer.Base.{
  ℕ, zero, suc, ◌+◌, ◌-◌, ◌*◌, ◌/◌, ◌%◌, ◌≤◌, ◌<◌, ◌≡◌, refl, inl, inr, arith, ltb, Bool-cases,
}
use pfortainer.Calendar.{Zone, month_length, month_start, month_from, date, first_of_month, second}

pub month_length_bounds : (k : ℕ) → (28 ≤ month_length k) × (month_length k ≤ 31)
unfolding month_length
month_length_bounds k = ground arith

-- With fuel for the days left, the month found holds the day.
month_from_holds :
    (fuel k d : ℕ)
    → month_start k ≤ d
    → d < month_start k + fuel
    → (month_start (month_from fuel k (month_start k) d) ≤ d)
      × (d < month_start (suc (month_from fuel k (month_start k) d)))
unfolding month_from month_start
month_from_holds zero k d lo hi = absurd (omega arith)
month_from_holds (suc fuel) k d lo hi = elim (Bool-cases (ltb d (month_start k + month_length k))) [
  | inl e ↦ rw e (lo, ground arith)
  | inr e ↦
      rw e (month_from_holds fuel (suc k) d (ground arith) (ground (arith, month_length_bounds k)))
]

month_start_zero : (d : ℕ) → month_start 0 ≤ d
unfolding month_start
month_start_zero d = omega arith

pub date_holds :
    (d : ℕ)
    → (k : ℕ) × (date d ≡ (1970 + k / 12, k % 12 + 1))
      × (month_start k ≤ d)
      × (d < month_start (suc k))
unfolding date month_start
date_holds d =
    let (lo, hi) =
      month_from_holds (d + 1) 0 d (month_start_zero d) (unfold month_start in omega arith) in
    (month_from (d + 1) 0 0 d, refl, lo, hi)

month_span : (k : ℕ) → month_start (suc k) ≤ month_start k + 31
unfolding month_start
month_span k = omega (arith, month_length_bounds k)

month_index : (k : ℕ) → (1970 + k / 12 - 1970) * 12 + (k % 12 + 1 + 1 - 1) ≡ suc k
month_index k = omega arith

-- The first day of the month after the one of day d.
pub next_month :
    (z : Zone) (d : ℕ)
    → (k : ℕ) × ((let (y, m) = date d in first_of_month z y (m + 1))
        ≡ (month_start (suc k) * 86400 + z.west - z.east) * second)
      × (month_start k ≤ d)
      × (d < month_start (suc k))
      × (month_start (suc k) ≤ month_start k + 31)
unfolding first_of_month
next_month z d =
    let (k, e, lo, hi) = date_holds d in
    (k, rw (first_of_month, e, month_index), lo, hi, month_span k)
