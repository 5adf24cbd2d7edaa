-- ===== src/Scheduler/Tests.antt =====
-- A tick on a machine whose scrubs fail.
use pfortainer.Base.{ℕ, suc, ◌*◌, ◌≡◌, refl, false, none, some, [], ◌∷◌, arith, codes, ok, err, All}
use pfortainer.Calendar.{utc}
use pfortainer.Calendar.Next.{Since1970}
use pfortainer.Store.{unix, Db, ScheduleRow, empty_db}
use pfortainer.Store.Schedules.{is_due}
use pfortainer.Scheduler.{Machine, ClockRuns, tick}
use pfortainer.Scheduler.Tick.{tick_leaves_none_due}

-- The state is the clock; each task takes a second.
abbrev slow_machine : Machine ℕ
slow_machine = record {
  now = λ w. w * 1000000000;
  stamp = λ t. codes "20260101-000000";
  create_snapshot = λ dataset name w. (ok tt, suc w);
  prune_snapshots = λ dataset prefix k w. (ok tt, suc w);
  start_smart_test = λ device kind w. (ok [], suc w);
  zpool_scrub = λ pool w. (([], some (codes "exit status 1")), suc w);
  run_replication = λ source target last recursive w. (err (codes "no agent"), suc w);
}

slow-ClockRuns : ClockRuns ℕ slow_machine
slow-ClockRuns = record {
  create = λ d n w. omega arith;
  prune = λ d p k w. omega arith;
  smart = λ d t w. omega arith;
  scrub = λ p w. omega arith;
}

abbrev weekly_scrub : ScheduleRow
weekly_scrub = record {
  id = 1;
  type = codes "scrub";
  target = codes "tank";
  frequency = codes "weekly";
  retention = 0;
  prefix = [];
  enabled = 1;
  last_run = none;
  next_run = none;
  created_at = 0;
}

abbrev one_schedule : Db
one_schedule = record empty_db { schedules = weekly_scrub ∷ [] }

abbrev start : ℕ
start = 1700000000

start-Since1970 : Since1970 utc (slow_machine.now start)
unfolding unix
start-Since1970 = omega arith

tick_leaves_none_due_example :
    All
      (λ r. is_due (unix (slow_machine.now start)) r ≡ false)
      (tick slow_machine utc one_schedule start).0.schedules
tick_leaves_none_due_example =
    tick_leaves_none_due slow_machine slow-ClockRuns utc one_schedule start refl (tt, tt)
      start-Since1970
