-- ===== src/Store/Tests.antt =====
-- The other tables on concrete rows.
use pfortainer.Base.{
  ℕ, ◌<◌, ◌≡◌, refl, true, false, Option, none, some, [], ◌∷◌, Text, codes, ok, keep,
}
use pfortainer.Store.{Time, unix, Db, ScheduleRow, empty_db, statement, bool_int}
use pfortainer.Store.Rows.{count_where}
use pfortainer.Store.Schedules.{is_due}
use pfortainer.Store.Alerts.Meta.{set, get, Replay, calls, view, meta_refines}
use pfortainer.Store.Replication.{DbReplTask, create_repl_task, insert_repl_task, delete_repl_task}
use pfortainer.Store.Replication.Keys.{delete, repl_calls, repl_call, later_id_larger}
use pfortainer.Store.Rows.{delete_where}

abbrev hourly : ℕ → Option ℕ → ScheduleRow
hourly id next = record {
  id = id;
  type = codes "snapshot";
  target = codes "tank/a";
  frequency = codes "hourly";
  retention = 7;
  prefix = codes "auto";
  enabled = 1;
  last_run = none;
  next_run = next;
  created_at = 0;
}

abbrev two_schedules : Db
two_schedules = record empty_db { schedules = hourly 1 none ∷ hourly 2 (some 9) ∷ [] }

abbrev at_five : Time
at_five = 5000000000

-- Only the first of them is due.
first_due : keep (is_due 5) two_schedules.schedules ≡ hourly 1 none ∷ []
first_due = refl

meta_refines_example :
    Replay
      (set (codes "a") (codes "1") at_five ∷ get (codes "a") ∷ [])
      (calls (set (codes "a") (codes "1") at_five ∷ get (codes "a") ∷ []) empty_db).0
      (view empty_db)
      (view (calls (set (codes "a") (codes "1") at_five ∷ get (codes "a") ∷ []) empty_db).1)
meta_refines_example =
    meta_refines (set (codes "a") (codes "1") at_five ∷ get (codes "a") ∷ []) empty_db

abbrev task : DbReplTask
task = record {
  id = 0;
  name = codes "nightly";
  source_dataset = codes "tank/a";
  target_path = codes "backup/a";
  recursive = false;
  schedule = codes "daily";
  last_snapshot = [];
  last_run_at = none;
  last_status = [];
  last_error = [];
  enabled = true;
  created_at = 0;
}

abbrev unique : Text
unique = codes "UNIQUE constraint failed: replication_tasks.name"

abbrev one_task : Db
one_task = (create_repl_task unique task at_five empty_db).1

first_id : (create_repl_task unique task at_five empty_db).0 ≡ ok 1
unfolding create_repl_task insert_repl_task statement count_where bool_int unix
first_id = refl

second_id : (create_repl_task unique task at_five (repl_calls (delete 1 ∷ []) one_task)).0 ≡ ok 2
unfolding create_repl_task insert_repl_task statement count_where bool_int unix repl_calls repl_call
    delete_repl_task delete_where
second_id = refl

later_id_larger_example : 1 < 2
later_id_larger_example =
    later_id_larger unique task task at_five at_five (delete 1 ∷ []) empty_db 1 2 first_id second_id
