-- ===== src/Store/Replication.antt =====
-- configdb.go: the table replication_tasks. A query succeeds or fails as a whole.
pub mod Keys
use pfortainer.Base.{
  ℕ, ◌+◌, ◌*◌, Bool, true, not, ◌&&◌, Option, none, some, List, [], ◌∷◌, ◌++◌, map, Text, codes,
  text_eq, ok, err, keep, ltb, ◌==◌, if◌then◌else◌,
}
use pfortainer.Store.{Time, unix, ReplRow, Db, Sql, statement, and_then, bool_int}
use pfortainer.Store.Rows.{update_where, delete_where, count_where}
use pfortainer.Calendar.{Zone, next_run_time}

-- DBReplTask.
pub record DbReplTask : Type 0 where
  pub id : ℕ
  pub name : Text
  pub source_dataset : Text
  pub target_path : Text
  pub recursive : Bool
  pub schedule : Text
  pub last_snapshot : Text
  pub last_run_at : Option Time
  pub last_status : Text
  pub last_error : Text
  pub enabled : Bool
  pub created_at : Time

abbrev pub to_repl_task : ReplRow → DbReplTask
to_repl_task r = record {
  id = r.id;
  name = r.name;
  source_dataset = r.source_dataset;
  target_path = r.target_path;
  recursive = r.recursive == 1;
  schedule = r.schedule;
  last_snapshot = r.last_snapshot;
  last_run_at = elim r.last_run_at [ none ↦ none | some v ↦ some (v * 1000000000) ];
  last_status = r.last_status;
  last_error = r.last_error;
  enabled = r.enabled == 1;
  created_at = r.created_at * 1000000000;
}

abbrev pub repl_id : ℕ → ReplRow → Bool
repl_id id r = r.id == id

abbrev repl_row : DbReplTask → Time → ℕ → ReplRow
repl_row t now id = record {
  id = id;
  name = t.name;
  source_dataset = t.source_dataset;
  target_path = t.target_path;
  recursive = bool_int t.recursive;
  schedule = t.schedule;
  last_snapshot = [];
  last_run_at = none;
  last_status = [];
  last_error = [];
  enabled = bool_int t.enabled;
  created_at = unix now;
}

-- The INSERT, which fails with the driver's text where another task has the name. AUTOINCREMENT
-- gives an id above all that it gave before.
unfoldable pub insert_repl_task : Text → DbReplTask → Time → Sql ℕ
unfolding count_where bool_int unix
insert_repl_task unique_failed t now db =
    if count_where (λ (r : ReplRow). text_eq r.name t.name) db.replication_tasks == 0
    then (
      ok (db.repl_seq + 1),
      record db {
        replication_tasks = db.replication_tasks ++ repl_row t now (db.repl_seq + 1) ∷ [];
        repl_seq = db.repl_seq + 1;
      },
    )
    else (err unique_failed, db)

unfoldable pub create_repl_task : Text → DbReplTask → Time → Sql ℕ
unfolding statement insert_repl_task
create_repl_task unique_failed t now = statement (insert_repl_task unique_failed t now)

unfoldable pub list_repl_tasks : Sql (List DbReplTask)
unfolding statement
list_repl_tasks = statement λ db. (ok (map to_repl_task db.replication_tasks), db)

abbrev write_repl : (ReplRow → Bool) → (ReplRow → ReplRow) → Sql (Unit {0})
write_repl p f =
    statement λ db. (ok tt, record db { replication_tasks = update_where p f db.replication_tasks })

unfoldable pub update_repl_task_result : ℕ → Text → Text → Text → Time → Sql (Unit {0})
unfolding statement update_where unix
update_repl_task_result id snap status err_msg now = write_repl (repl_id id) λ r. record r {
  last_snapshot = snap;
  last_run_at = some (unix now);
  last_status = status;
  last_error = err_msg;
}

unfoldable pub toggle_repl_task : ℕ → Bool → Sql (Unit {0})
unfolding statement update_where bool_int
toggle_repl_task id enabled = write_repl (repl_id id) (λ r. record r { enabled = bool_int enabled })

unfoldable pub delete_repl_task : ℕ → Sql (Unit {0})
unfolding statement delete_where
delete_repl_task id =
    statement λ db.
      (ok tt, record db { replication_tasks = delete_where (repl_id id) db.replication_tasks })

-- now.After(nextRunTime(schedule, *lastRunAt)), or no run yet.
abbrev period_over : Zone → Text → Time → Option Time → Bool
period_over z schedule now none = true
period_over z schedule now (some last) = ltb (next_run_time schedule z last) now

abbrev pub repl_is_due : Zone → Time → DbReplTask → Bool
repl_is_due z now t =
    t.enabled
    && not (text_eq t.schedule (codes "manual"))
    && period_over z t.schedule now t.last_run_at

abbrev only_due : Zone → Time → List DbReplTask → Sql (List DbReplTask)
only_due z now ts db = (ok (keep (repl_is_due z now) ts), db)

unfoldable pub due_repl_tasks : Zone → Time → Sql (List DbReplTask)
unfolding list_repl_tasks text_eq next_run_time
due_repl_tasks z now db = and_then (list_repl_tasks db) (only_due z now)
