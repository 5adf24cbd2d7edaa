-- ===== src/Store/Schedules.antt =====
-- configdb.go: the schedules table. A query succeeds or fails as a whole; a retention that is not
-- positive is 0, since the program only tests whether it is positive.
pub mod Due
use pfortainer.Base.{
  ℕ, ◌*◌, Bool, true, not, ◌&&◌, Option, none, some, List, [], ◌∷◌, ◌++◌, map, Text, codes, Result,
  ok, err, keep, leb, ◌==◌,
}
use pfortainer.Store.{Time, unix, ScheduleRow, Db, Sql, statement, and_then, bool_int}
use pfortainer.Store.Rows.{find, update_where, delete_where, next_id}

-- DBSchedule.
pub record DbSchedule : Type 0 where
  pub id : ℕ
  pub type : Text
  pub target : Text
  pub frequency : Text
  pub retention : ℕ
  pub prefix : Text
  pub enabled : Bool
  pub last_run : Option Time
  pub next_run : Option Time
  pub created_at : Time

-- time.Unix(v, 0).
abbrev pub from_unix : ℕ → Time
from_unix v = v * 1000000000

abbrev pub time_of : Option ℕ → Option Time
time_of none = none
time_of (some v) = some (from_unix v)

abbrev pub unix_or_nil : Option Time → Option ℕ
unix_or_nil none = none
unix_or_nil (some t) = some (unix t)

-- The row that is scanned.
abbrev pub to_schedule : ScheduleRow → DbSchedule
to_schedule r = record {
  id = r.id;
  type = r.type;
  target = r.target;
  frequency = r.frequency;
  retention = r.retention;
  prefix = r.prefix;
  enabled = not (r.enabled == 0);
  last_run = time_of r.last_run;
  next_run = time_of r.next_run;
  created_at = from_unix r.created_at;
}

abbrev pub schedule_id : ℕ → ScheduleRow → Bool
schedule_id id r = r.id == id

abbrev pub schedule_row : DbSchedule → Time → ℕ → ScheduleRow
schedule_row s now id = record {
  id = id;
  type = s.type;
  target = s.target;
  frequency = s.frequency;
  retention = s.retention;
  prefix = s.prefix;
  enabled = bool_int s.enabled;
  last_run = none;
  next_run = unix_or_nil s.next_run;
  created_at = unix now;
}

unfoldable pub create_schedule : DbSchedule → Time → Sql ℕ
unfolding statement next_id bool_int unix
create_schedule s now = statement λ db.
    let id = next_id (λ (r : ScheduleRow). r.id) db.schedules in
    (ok id, record db { schedules = db.schedules ++ schedule_row s now id ∷ [] })

unfoldable pub list_schedules : Sql (List DbSchedule)
unfolding statement
list_schedules = statement λ db. (ok (map to_schedule db.schedules), db)

abbrev scanned : Option ScheduleRow → Result DbSchedule
scanned none = err (codes "sql: no rows in result set")
scanned (some r) = ok (to_schedule r)

unfoldable pub get_schedule : ℕ → Sql DbSchedule
unfolding statement find
get_schedule id = statement λ db. (scanned (find (schedule_id id) db.schedules), db)

-- The columns that a run writes.
abbrev pub ran : Time → Time → ScheduleRow → ScheduleRow
ran last next r = record r { last_run = some (unix last); next_run = some (unix next) }

unfoldable pub update_schedule_run : ℕ → Time → Time → Sql (Unit {0})
unfolding statement update_where unix
update_schedule_run id last next = statement λ db.
    (ok tt, record db { schedules = update_where (schedule_id id) (ran last next) db.schedules })

unfoldable pub toggle_schedule : ℕ → Bool → Sql (Unit {0})
unfolding statement update_where bool_int
toggle_schedule id enabled = statement λ db. (
  ok tt,
  record db {
    schedules =
        update_where (schedule_id id) (λ r. record r { enabled = bool_int enabled }) db.schedules;
  },
)

unfoldable pub delete_schedule : ℕ → Sql (Unit {0})
unfolding statement delete_where
delete_schedule id =
    statement λ db. (ok tt, record db { schedules = delete_where (schedule_id id) db.schedules })

-- enabled=1 AND (next_run IS NULL OR next_run <= now)
abbrev pub run_is_due : ℕ → Option ℕ → Bool
run_is_due now none = true
run_is_due now (some next) = leb next now

abbrev pub is_due : ℕ → ScheduleRow → Bool
is_due now r = r.enabled == 1 && run_is_due now r.next_run

due_ids : ℕ → Sql (List ℕ)
unfolding statement
due_ids now =
    statement λ db. (ok (map (λ (r : ScheduleRow). r.id) (keep (is_due now) db.schedules)), db)

abbrev add_schedule :
    Result DbSchedule → Result (List DbSchedule) × Db → Result (List DbSchedule) × Db
add_schedule (ok s) (ok ss, db) = (ok (s ∷ ss), db)
add_schedule (ok s) (err e, db) = (err e, db)
add_schedule (err e) rest = rest

-- The loop over the ids: one that GetSchedule fails on is skipped.
get_schedules : List ℕ → Sql (List DbSchedule)
unfolding get_schedule
get_schedules [] db = (ok [], db)
get_schedules (id ∷ ids) db =
    let (s, db') = get_schedule id db in add_schedule s (get_schedules ids db')

unfoldable pub due_schedules : Time → Sql (List DbSchedule)
unfolding due_ids get_schedules unix
due_schedules now db = and_then (due_ids (unix now) db) get_schedules
