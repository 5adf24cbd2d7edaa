-- ===== src/Scheduler/Tick.antt =====
-- After a tick nothing that was due is due any more.
use pfortainer.Base.{
  ℕ, ◌≤◌, ◌<◌, ◌≡◌, refl, sym, inl, inr, true, false, List, [], ◌∷◌, map, arith, codes, text_eq,
  Result, ok, err, keep, any, All, ltb, ◌==◌, Bool-cases,
}
use mathlib.Core.Path.{subst}
use pfortainer.Calendar.{Zone, next_run_time}
use pfortainer.Calendar.Next.{Since1970}
use pfortainer.Store.{Time, unix, Db, ScheduleRow}
use pfortainer.Store.Rows.{update_where, DistinctKeys}
use pfortainer.Store.Rows.Laws.{All-map_rows}
use pfortainer.Store.Statement.{statement_runs}
use pfortainer.Store.Schedules.{
  DbSchedule, to_schedule, schedule_id, ran, is_due, update_schedule_run,
}
use pfortainer.Store.Schedules.Due.{due_schedules_exact}
use pfortainer.Scheduler.{
  Machine, ClockRuns, run_snapshot, run_scrub, run_smart_test, perform, run, run_each, tick,
  after_snapshot, snap_label,
}
use pfortainer.Calendar.Seconds.{next_second, unix_le}

module _ {W : Type 0} (m : Machine W) (clock : ClockRuns W m) where
  after_snapshot_later :
      (s : DbSchedule) (r : Result (Unit {0}) × W) → m.now r.1 ≤ m.now (after_snapshot m s r).1
  after_snapshot_later s (err e, w) = omega arith
  after_snapshot_later s (ok done, w) = elim (Bool-cases (ltb 0 s.retention)) [
    | inl e ↦ rw e (clock.prune s.target s.prefix s.retention w)
    | inr e ↦ rw e (omega arith)
  ]

  snapshot_later : (s : DbSchedule) (w : W) → m.now w ≤ m.now (run_snapshot m s w).1
  unfolding run_snapshot
  snapshot_later s w =
      let name = snap_label m s.prefix w in
      omega (
        arith,
        clock.create s.target name w,
        after_snapshot_later s (m.create_snapshot s.target name w),
      )

  -- A task takes time, whichever it is.
  perform_later : (s : DbSchedule) (w : W) → m.now w ≤ m.now (perform m s w).1
  unfolding perform run_scrub run_smart_test
  perform_later s w = elim (Bool-cases (text_eq s.type (codes "snapshot"))) [
    | inl e ↦ rw (perform, e) (snapshot_later s w)
    | inr n₁ ↦ elim (Bool-cases (text_eq s.type (codes "scrub"))) [
      | inl e ↦ rw (perform, n₁, e) (clock.scrub s.target w)
      | inr n₂ ↦ elim (Bool-cases (text_eq s.type (codes "smart_test"))) [
        | inl e ↦ rw (perform, n₁, n₂, e) (clock.smart s.target _ w)
        | inr n₃ ↦ rw (perform, n₁, n₂, n₃) (omega arith)
      ]
    ]
  ]

-- A row that is due at second t is one that is still to run.
abbrev DueIsListed : ℕ → List DbSchedule → ScheduleRow → Type 0
DueIsListed t ss r = is_due t r ≡ true → any (λ (s : DbSchedule). s.id == r.id) ss ≡ true

listed_after :
    (t : ℕ) (s : DbSchedule) (ss : List DbSchedule) (last next : Time) (rows : List ScheduleRow)
    → t < unix next
    → All (DueIsListed t (s ∷ ss)) rows
    → All (DueIsListed t ss) (update_where (schedule_id s.id) (ran last next) rows)
unfolding update_where
listed_after t s ss last next [] lt h = tt
listed_after t s ss last next (r ∷ rows) lt h = elim (Bool-cases (r.id == s.id)) [
  | inl e ↦ rw e ((λ due. absurd (ground arith)), listed_after t s ss last next rows lt h.1)
  | inr e ↦ rw e ((λ due. ground (arith, h.0 due)), listed_after t s ss last next rows lt h.1)
]

none_due :
    (t : ℕ) (rows : List ScheduleRow)
    → All (DueIsListed t []) rows
    → All (λ r. is_due t r ≡ false) rows
none_due t [] h = tt
none_due t (r ∷ rows) h = (
  elim (Bool-cases (is_due t r)) [ inl e ↦ absurd (ground (arith, h.0 e)) | inr e ↦ e ],
  none_due t rows h.1,
)

update_run_runs :
    (id : ℕ) (last next : Time) (db : Db)
    → db.faults ≡ []
    → update_schedule_run id last next db ≡ (
      ok tt,
      record db { schedules = update_where (schedule_id id) (ran last next) db.schedules },
    )
unfolding update_schedule_run
update_run_runs id last next db quiet = statement_runs _ db quiet

keep_kept :
    (t : ℕ) (r : ScheduleRow) (rows : List ScheduleRow)
    → is_due t r ≡ true
    → keep (is_due t) (r ∷ rows) ≡ r ∷ keep (is_due t) rows
keep_kept t r rows e = rw e refl

keep_dropped :
    (t : ℕ) (r : ScheduleRow) (rows : List ScheduleRow)
    → is_due t r ≡ false
    → keep (is_due t) (r ∷ rows) ≡ keep (is_due t) rows
keep_dropped t r rows e = rw e refl

due_listed :
    (t : ℕ) (rows : List ScheduleRow)
    → All (DueIsListed t (map to_schedule (keep (is_due t) rows))) rows
due_listed t [] = tt
due_listed t (r ∷ rows) =
    let later : All (DueIsListed t (map to_schedule (keep (is_due t) rows))) rows =
      due_listed t rows in
    elim (Bool-cases (is_due t r)) [
      | inl e ↦
          subst (λ ks. All (DueIsListed t (map to_schedule ks)) (r ∷ rows))
            (sym (keep_kept t r rows e))
            (
              (λ due. ground arith),
              All-map_rows (DueIsListed t (map to_schedule (keep (is_due t) rows)))
                  (DueIsListed t (map to_schedule (r ∷ keep (is_due t) rows))) rows
                  (λ q h due. ground (arith, h due)) later,
            )
      | inr n ↦
          subst (λ ks. All (DueIsListed t (map to_schedule ks)) (r ∷ rows))
            (sym (keep_dropped t r rows n)) ((λ due. absurd (ground arith)), later)
    ]

module _ {W : Type 0} (m : Machine W) (z : Zone) where
  run_state :
      (s : DbSchedule) (db : Db) (w : W)
      → db.faults ≡ []
      → (run m z s db w).1 ≡ (
        record db {
          schedules =
              update_where
                (schedule_id s.id)
                (ran (m.now w) (next_run_time s.frequency z (m.now w)))
                db.schedules;
        },
        (perform m s w).1,
      )
  unfolding run
  run_state s db w quiet =
      rw (update_run_runs s.id (m.now w) (next_run_time s.frequency z (m.now w)) db quiet) refl

  run_each_cons :
      (s : DbSchedule) (ss : List DbSchedule) (db : Db) (w : W)
      → run_each m z (s ∷ ss) db w ≡ run_each m z ss (run m z s db w).1.0 (run m z s db w).1.1
  unfolding run_each
  run_each_cons s ss db w = refl

module _ {W : Type 0} (m : Machine W) (clock : ClockRuns W m) (z : Zone) where
  run_each_clears :
      (t : ℕ) (ss : List DbSchedule) (db : Db) (w : W)
      → db.faults ≡ []
      → Since1970 z (m.now w)
      → t ≤ unix (m.now w)
      → All (DueIsListed t ss) db.schedules
      → All (DueIsListed t []) (run_each m z ss db w).0.schedules
  unfolding run_each
  run_each_clears t [] db w quiet since le h = h
  run_each_clears t (s ∷ ss) db w quiet since le h =
      let next = next_run_time s.frequency z (m.now w) in
      let gone = perform_later m clock s w in
      rw (run_each_cons m z s ss db w, run_state m z s db w quiet)
        (run_each_clears t ss _ (perform m s w).1 quiet
          (omega (arith, unix_le (m.now w) (m.now (perform m s w).1) gone))
          (omega (arith, unix_le (m.now w) (m.now (perform m s w).1) gone))
          (listed_after t s ss (m.now w) next db.schedules
            (omega (arith, next_second s.frequency z (m.now w) since)) h))

  -- A tick without driver errors, on schedules with distinct ids, a clock that does not go back and
  -- a time at which the location's clocks have reached 1970, leaves no schedule due at the time
  -- when it began, also where a task failed.
  pub tick_leaves_none_due :
      (db : Db) (w : W)
      → db.faults ≡ []
      → DistinctKeys (λ (r : ScheduleRow). r.id) db.schedules
      → Since1970 z (m.now w)
      → All (λ r. is_due (unix (m.now w)) r ≡ false) (tick m z db w).0.schedules
  unfolding tick
  tick_leaves_none_due db w quiet distinct since =
      rw (due_schedules_exact (m.now w) db quiet distinct) (
        none_due (unix (m.now w)) _ (
          run_each_clears (unix (m.now w)) _ db w quiet since (omega arith)
            (due_listed (unix (m.now w)) db.schedules)))
