-- ===== src/Scheduler.antt =====
-- scheduler.go: the tick of the schedules, RunNow and the tick of the replication tasks. What the
-- scheduler asks of the machine (the clock, ZFS, smartctl, the host agent) is the record `Machine`
-- over the machine's states W. The log is left out, and so is the timer loop of Start.
pub mod Tick
mod Tests
use pfortainer.Base.{
  ℕ, ◌≤◌, Bool, not, ◌||◌, Option, none, some, List, [], ◌∷◌, ◌++◌, Text, codes, text_eq, trim,
  decimal, Result, ok, err, keep, ltb, if◌then◌else◌,
}
use pfortainer.Calendar.{Zone, next_run_time}
use pfortainer.Store.{Time, Db, and_then}
use pfortainer.Store.Schedules.{DbSchedule, get_schedule, update_schedule_run, due_schedules}
use pfortainer.Store.Replication.{DbReplTask, due_repl_tasks, update_repl_task_result}

-- `stamp` is the UTC format of snapLabel; `zpool_scrub` returns the output and the error, if any.
pub record Machine (W : Type 0) : Type 0 where
  pub now : W → Time
  pub stamp : Time → Text
  pub create_snapshot : (dataset name : Text) → W → Result (Unit {0}) × W
  pub prune_snapshots : (dataset prefix : Text) → (keep : ℕ) → W → Result (Unit {0}) × W
  pub start_smart_test : (device test_type : Text) → W → Result Text × W
  pub zpool_scrub : (pool : Text) → W → (Text × Option Text) × W
  pub run_replication : (source target last_snap : Text) → (recursive : Bool) → W → Result Text × W

-- The clock does not go back.
pub record ClockRuns (W : Type 0) (m : Machine W) : Type 0 where
  pub create : (d n : Text) (w : W) → m.now w ≤ m.now (m.create_snapshot d n w).1
  pub prune : (d p : Text) (k : ℕ) (w : W) → m.now w ≤ m.now (m.prune_snapshots d p k w).1
  pub smart : (d t : Text) (w : W) → m.now w ≤ m.now (m.start_smart_test d t w).1
  pub scrub : (p : Text) (w : W) → m.now w ≤ m.now (m.zpool_scrub p w).1

abbrev is_ok : Result Text → Result (Unit {0})
is_ok (ok a) = ok tt
is_ok (err e) = err e

module _ {W : Type 0} (m : Machine W) where
  pub snap_label : Text → W → Text
  snap_label prefix w = prefix ++ b'-' ∷ m.stamp (m.now w)

  -- The prune after a snapshot; its error is only logged.
  abbrev pub after_snapshot : DbSchedule → Result (Unit {0}) × W → Result (Unit {0}) × W
  after_snapshot s (err e, w) = (err e, w)
  after_snapshot s (ok done, w) =
      if ltb 0 s.retention
      then (ok tt, (m.prune_snapshots s.target s.prefix s.retention w).1)
      else (ok tt, w)

  unfoldable pub run_snapshot : DbSchedule → W → Result (Unit {0}) × W
  run_snapshot s w = after_snapshot s (m.create_snapshot s.target (snap_label s.prefix w) w)

  abbrev test_type : Text → Text
  test_type prefix =
      if text_eq prefix [] || text_eq prefix (codes "auto") then codes "short" else prefix

  unfoldable pub run_smart_test : DbSchedule → W → Result (Unit {0}) × W
  run_smart_test s w =
      let (r, w') = m.start_smart_test s.target (test_type s.prefix) w in (is_ok r, w')

  abbrev scrub_result : Text → Text × Option Text → Result (Unit {0})
  scrub_result target (out, none) = ok tt
  scrub_result target (out, some e) =
      let msg = trim out in
      err (codes "zpool scrub " ++ target ++ codes ": " ++ (if text_eq msg [] then e else msg))

  unfoldable pub run_scrub : DbSchedule → W → Result (Unit {0}) × W
  unfolding trim text_eq
  run_scrub s w = let (r, w') = m.zpool_scrub s.target w in (scrub_result s.target r, w')

  -- The switch on the type.
  unfoldable pub perform : DbSchedule → W → Result (Unit {0}) × W
  unfolding text_eq run_snapshot run_scrub run_smart_test
  perform s w =
      if text_eq s.type (codes "snapshot")
      then run_snapshot s w
      else if text_eq s.type (codes "scrub")
      then run_scrub s w
      else if text_eq s.type (codes "smart_test")
      then run_smart_test s w
      else (err (codes "unknown schedule type: " ++ s.type), w)

  -- The next run is computed before the task starts, and written whether the task failed or not.
  unfoldable pub run : Zone → DbSchedule → Db → W → Result (Unit {0}) × (Db × W)
  unfolding perform
  run z s db w =
      let now = m.now w in
      let next = next_run_time s.frequency z now in
      let (r, w') = perform s w in
      let (logged, db') = update_schedule_run s.id now next db in (r, (db', w'))

  -- The loop of tick: an error of a task is only logged.
  unfoldable pub run_each : Zone → List DbSchedule → Db → W → Db × W
  run_each z [] db w = (db, w)
  run_each z (s ∷ ss) db w = let (r, (db', w')) = run z s db w in run_each z ss db' w'

  abbrev pub run_due : Zone → Result (List DbSchedule) × Db → W → Db × W
  run_due z (err e, db) w = (db, w)
  run_due z (ok due, db) w = run_each z due db w

  unfoldable pub tick : Zone → Db → W → Db × W
  unfolding run_each
  tick z db w = run_due z (due_schedules (m.now w) db) w

  abbrev run_found : Zone → ℕ → Result DbSchedule × Db → W → Result (Unit {0}) × (Db × W)
  run_found z id (err e, db) w =
      (err (codes "schedule " ++ decimal id ++ codes " not found: " ++ e), (db, w))
  run_found z id (ok s, db) w = run z s db w

  -- RunNow.
  pub run_now : Zone → ℕ → Db → W → Result (Unit {0}) × (Db × W)
  unfolding run decimal
  run_now z id db w = run_found z id (get_schedule id db) w

  -- A failure keeps the label that the task had as base.
  abbrev pub write_repl_result : DbReplTask → Result Text × W → Db → Db × W
  write_repl_result t (err e, w) db =
      ((update_repl_task_result t.id t.last_snapshot (codes "error") e (m.now w) db).1, w)
  write_repl_result t (ok current, w) db =
      ((update_repl_task_result t.id current (codes "ok") [] (m.now w) db).1, w)

  unfoldable pub replicate_each : List DbReplTask → Db → W → Db × W
  replicate_each [] db w = (db, w)
  replicate_each (t ∷ ts) db w =
      let result = m.run_replication t.source_dataset t.target_path t.last_snapshot t.recursive w in
      let (db', w') = write_repl_result t result db in replicate_each ts db' w'

  abbrev pub replicate_due : Result (List DbReplTask) × Db → W → Db × W
  replicate_due (err e, db) w = (db, w)
  replicate_due (ok due, db) w = replicate_each due db w

  unfoldable pub repl_tick : Zone → Db → W → Db × W
  unfolding replicate_each
  repl_tick z db w = replicate_due (due_repl_tasks z (m.now w) db) w
