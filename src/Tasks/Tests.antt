-- ===== src/Tasks/Tests.antt =====
-- A schedule that is asked for on an empty database.
use pfortainer.Base.{
  ℕ, ◌≤◌, ◌<◌, ◌≡◌, refl, ◌↔◌, true, false, ◌||◌, none, [], ◌∷◌, ◌++◌, arith, codes, text_eq,
}
use pfortainer.Calendar.{utc, next_run_time}
use pfortainer.Calendar.Next.{Since1970}
use pfortainer.Store.{Time, unix, ScheduleRow, empty_db}
use pfortainer.Store.Schedules.{is_due}
use pfortainer.Tasks.{ScheduleForm, schedule_create}
use pfortainer.Tasks.Created.{created_schedule_waits}

abbrev form : ScheduleForm
form = record {
  type = codes "snapshot";
  target = codes "tank/a";
  frequency = codes "daily";
  prefix = codes " ";
  retention = none;
}

abbrev now : Time
now = 1700000000000000000

form_filled : (text_eq form.type [] || text_eq form.target [] || text_eq form.frequency []) ≡ false
unfolding text_eq
form_filled = refl

now-Since1970 : Since1970 utc now
unfolding unix
now-Since1970 = omega arith

created_schedule_waits_example :
    (r : ScheduleRow) × ((schedule_create utc now now form empty_db).0.schedules ≡ [] ++ r ∷ [])
    × (r.frequency ≡ form.frequency)
    × ((at : ℕ) → (is_due at r ≡ true) ↔ (unix (next_run_time form.frequency utc now) ≤ at))
    × (unix now < unix (next_run_time form.frequency utc now))
created_schedule_waits_example =
    created_schedule_waits utc now now form empty_db refl form_filled now-Since1970
