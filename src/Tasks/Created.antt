-- ===== src/Tasks/Created.antt =====
-- When a schedule that was asked for runs first, and what toggling does.
use pfortainer.Base.{
  ℕ, ◌≤◌, ◌<◌, ◌≡◌, refl, ◌↔◌, true, false, ◌||◌, [], ◌∷◌, ◌++◌, arith, text_eq, ok,
}
use pfortainer.Calendar.{Zone, next_run_time}
use pfortainer.Calendar.Next.{Since1970}
use pfortainer.Store.{Time, unix, Db, ScheduleRow, bool_int}
use pfortainer.Store.Rows.{next_id}
use pfortainer.Store.Statement.{statement_runs}
use pfortainer.Store.Schedules.{DbSchedule, create_schedule, schedule_row, is_due}
use pfortainer.Calendar.Seconds.{next_second}
use pfortainer.Tasks.{ScheduleForm, requested, schedule_create}

create_schedule_runs :
    (s : DbSchedule) (now : Time) (db : Db)
    → db.faults ≡ []
    → create_schedule s now db ≡ (
      ok (next_id (λ (r : ScheduleRow). r.id) db.schedules),
      record db {
        schedules =
            db.schedules
            ++ schedule_row s now (next_id (λ (r : ScheduleRow). r.id) db.schedules) ∷ [];
      },
    )
unfolding create_schedule
create_schedule_runs s now db quiet = statement_runs _ db quiet

-- For a location of a fixed offset from UTC, without driver errors, at a time at which its clocks
-- have reached 1970, scheduleCreate with a type, a target and a frequency adds one schedule behind
-- the others, with that frequency; it is due exactly from the second of the frequency's next run
-- on, which is later than the second of the request.
pub created_schedule_waits :
    (z : Zone) (now later : Time) (f : ScheduleForm) (db : Db)
    → db.faults ≡ []
    → (text_eq f.type [] || text_eq f.target [] || text_eq f.frequency []) ≡ false
    → Since1970 z now
    → (r : ScheduleRow) × ((schedule_create z now later f db).0.schedules ≡ db.schedules ++ r ∷ [])
      × (r.frequency ≡ f.frequency)
      × ((at : ℕ) → (is_due at r ≡ true) ↔ (unix (next_run_time f.frequency z now) ≤ at))
      × (unix now < unix (next_run_time f.frequency z now))
unfolding schedule_create bool_int
created_schedule_waits z now later f db quiet filled since =
    let id = next_id (λ (r : ScheduleRow). r.id) db.schedules in
    (
      schedule_row (requested z now f) later id,
      rw (schedule_create, filled, create_schedule_runs (requested z now f) later db quiet) refl,
      refl,
      (λ at. ground arith),
      next_second f.frequency z now since,
    )
