-- ===== src/Tasks.antt =====
-- handlers.go: the requests on schedules and replication tasks. A form parses always and a missing
-- field is the empty text; what fmt.Sscanf reads of a number is none where it reads none.
pub mod Created
mod Tests
use pfortainer.Base.{
  ℕ, true, not, ◌||◌, Option, none, some, List, [], ◌∷◌, ◌++◌, Text, codes, text_eq, trim, Result,
  ok, err, ◌==◌, if◌then◌else◌,
}
use pfortainer.Http.{Response, redirect}
use pfortainer.Calendar.{Zone, next_run_time}
use pfortainer.Store.{Time, Db}
use pfortainer.Store.Schedules.{
  DbSchedule, create_schedule, get_schedule, toggle_schedule, delete_schedule,
}
use pfortainer.Store.Replication.{
  DbReplTask, create_repl_task, list_repl_tasks, toggle_repl_task, delete_repl_task,
  update_repl_task_result,
}
use pfortainer.Scheduler.{Machine, run_now}

abbrev snapshots_page : Text → Response
snapshots_page query = redirect 303 (codes "/snapshots" ++ query)

abbrev replications_page : Text → Response
replications_page query = redirect 303 (codes "/replications" ++ query)

module _ {A : Type 0} where
  -- The redirect of an error, or of success.
  abbrev answered : (Text → Response) → Text → Result A × Db → Db × Response
  answered to success (ok a, db) = (db, to success)
  answered to success (err e, db) = (db, to (codes "?error=" ++ e))

abbrev or_zero : Option ℕ → ℕ
or_zero none = 0
or_zero (some n) = n

pub record ScheduleForm : Type 0 where
  pub type : Text
  pub target : Text
  pub frequency : Text
  pub prefix : Text
  pub retention : Option ℕ

-- The row that is asked for: the prefix is "auto" and the retention 7 where the form has none.
abbrev pub requested : Zone → Time → ScheduleForm → DbSchedule
requested z now f = record {
  id = 0;
  type = f.type;
  target = f.target;
  frequency = f.frequency;
  retention = elim f.retention [ none ↦ 7 | some n ↦ n ];
  prefix = let p = trim f.prefix in if text_eq p [] then codes "auto" else p;
  enabled = true;
  last_run = none;
  next_run = some (next_run_time f.frequency z now);
  created_at = 0;
}

-- CreateSchedule reads the clock again, at `later`.
unfoldable pub schedule_create : Zone → Time → Time → ScheduleForm → Db → Db × Response
unfolding text_eq trim create_schedule next_run_time
schedule_create z now later f db =
    if text_eq f.type [] || text_eq f.target [] || text_eq f.frequency []
    then (db, snapshots_page (codes "?error=필수+항목+누락"))
    else answered snapshots_page (codes "?success=스케줄+추가+완료")
        (create_schedule (requested z now f) later db)

abbrev toggled : ℕ → Result DbSchedule × Db → Db × Response
toggled id (err e, db) = (db, snapshots_page (codes "?error=" ++ e))
toggled id (ok s, db) = answered snapshots_page [] (toggle_schedule id (not s.enabled) db)

unfoldable pub schedule_toggle : Option ℕ → Db → Db × Response
unfolding get_schedule toggle_schedule
schedule_toggle read db = let id = or_zero read in toggled id (get_schedule id db)

unfoldable pub schedule_delete : Option ℕ → Db → Db × Response
unfolding delete_schedule
schedule_delete read db =
    answered snapshots_page (codes "?success=삭제+완료") (delete_schedule (or_zero read) db)

pub record ReplForm : Type 0 where
  pub name : Text
  pub source_dataset : Text
  pub target_path : Text
  pub recursive : Text
  pub schedule : Text

abbrev asked_for : ReplForm → DbReplTask
asked_for f = record {
  id = 0;
  name = f.name;
  source_dataset = f.source_dataset;
  target_path = f.target_path;
  recursive = text_eq f.recursive (codes "1");
  schedule = if text_eq f.schedule [] then codes "manual" else f.schedule;
  last_snapshot = [];
  last_run_at = none;
  last_status = [];
  last_error = [];
  enabled = true;
  created_at = 0;
}

unfoldable pub replication_create : Text → ReplForm → Time → Db → Db × Response
unfolding text_eq create_repl_task
replication_create unique_failed f now db =
    if text_eq f.name [] || text_eq f.source_dataset [] || text_eq f.target_path []
    then (db, replications_page (codes "?error=이름+소스+대상은+필수입니다"))
    else answered replications_page (codes "?success=복제+태스크+추가됨")
        (create_repl_task unique_failed (asked_for f) now db)

unfoldable pub replication_delete : Option ℕ → Db → Db × Response
unfolding delete_repl_task
replication_delete read db =
    answered replications_page (codes "?success=삭제됨") (delete_repl_task (or_zero read) db)

unfoldable pub replication_toggle : Option ℕ → (enabled : Text) → Db → Db × Response
unfolding toggle_repl_task text_eq
replication_toggle read enabled db =
    answered replications_page [] (toggle_repl_task (or_zero read) (text_eq enabled (codes "1")) db)

abbrev task_of : ℕ → List DbReplTask → Option DbReplTask
task_of id [] = none
task_of id (t ∷ ts) = let rest = task_of id ts in if t.id == id then some t else rest

module _ {W : Type 0} (m : Machine W) where
  abbrev ran_now : Result (Unit {0}) × (Db × W) → (Db × W) × Response
  ran_now (ok done, state) = (state, snapshots_page (codes "?success=즉시+실행+완료"))
  ran_now (err e, state) = (state, snapshots_page (codes "?error=" ++ e))

  pub schedule_run_now : Zone → Option ℕ → Db → W → (Db × W) × Response
  schedule_run_now z read db w = ran_now (run_now m z (or_zero read) db w)

  -- A failed run keeps the label of the last snapshot.
  abbrev replicated : DbReplTask → ℕ → Db → Result Text × W → (Db × W) × Response
  replicated t id db (err e, w) = (
    ((update_repl_task_result id t.last_snapshot (codes "error") e (m.now w) db).1, w),
    replications_page (codes "?error=복제+실패:+" ++ e),
  )
  replicated t id db (ok current, w) = (
    ((update_repl_task_result id current (codes "ok") [] (m.now w) db).1, w),
    replications_page (codes "?success=복제+완료+→+" ++ current),
  )

  abbrev replicate_found : ℕ → Db → W → Option DbReplTask → (Db × W) × Response
  replicate_found id db w none = ((db, w), replications_page (codes "?error=태스크+없음"))
  replicate_found id db w (some t) =
      replicated t id db
        (m.run_replication t.source_dataset t.target_path t.last_snapshot t.recursive w)

  abbrev replicate_listed : ℕ → W → Result (List DbReplTask) × Db → (Db × W) × Response
  replicate_listed id w (err e, db) = ((db, w), replications_page (codes "?error=" ++ e))
  replicate_listed id w (ok tasks, db) = replicate_found id db w (task_of id tasks)

  unfoldable pub replication_run : Option ℕ → Db → W → (Db × W) × Response
  unfolding list_repl_tasks update_repl_task_result
  replication_run read db w = let id = or_zero read in replicate_listed id w (list_repl_tasks db)
