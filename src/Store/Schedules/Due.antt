-- ===== src/Store/Schedules/Due.antt =====
-- What DueSchedules returns.
use pfortainer.Base.{
  ℕ, ◌≡◌, refl, ◌≢◌, inl, inr, Bool, some, List, [], ◌∷◌, map, arith, ok, keep, All, Bool-cases,
}
use pfortainer.Store.{Time, unix, ScheduleRow, Db}
use pfortainer.Store.Rows.{find, DistinctKeys}
use pfortainer.Store.Statement.{statement_runs}
use pfortainer.Store.Schedules.{
  to_schedule, schedule_id, is_due, scanned, get_schedule, due_ids, get_schedules, due_schedules,
}

-- The row is the one that its id finds.
abbrev pub FoundIn : List ScheduleRow → ScheduleRow → Type 0
FoundIn rows r = find (schedule_id r.id) rows ≡ some r

found_behind :
    (x : ScheduleRow) (rows xs : List ScheduleRow)
    → All (λ r. r.id ≢ x.id) xs
    → All (FoundIn rows) xs
    → All (FoundIn (x ∷ rows)) xs
unfolding find
found_behind x rows [] ne h = tt
found_behind x rows (y ∷ xs) ne h = (ground (arith, ne.0, h.0), found_behind x rows xs ne.1 h.1)

pub all_found :
    (rows : List ScheduleRow)
    → DistinctKeys (λ (r : ScheduleRow). r.id) rows
    → All (FoundIn rows) rows
unfolding find
all_found [] h = tt
all_found (x ∷ xs) h = (ground arith, found_behind x xs xs h.0 (all_found xs h.1))

get_found :
    (r : ScheduleRow) (db : Db)
    → db.faults ≡ []
    → FoundIn db.schedules r
    → get_schedule r.id db ≡ (ok (to_schedule r), db)
unfolding get_schedule
get_found r db quiet h =
    rw
      (
        statement_runs (λ (db : Db). (scanned (find (schedule_id r.id) db.schedules), db)) db quiet,
        h,
      )
      refl

get_all_found :
    (p : ScheduleRow → Bool) (xs : List ScheduleRow) (db : Db)
    → db.faults ≡ []
    → All (FoundIn db.schedules) xs
    → get_schedules (map (λ (r : ScheduleRow). r.id) (keep p xs)) db
      ≡ (ok (map to_schedule (keep p xs)), db)
unfolding get_schedules
get_all_found p [] db quiet h = refl
get_all_found p (x ∷ xs) db quiet h = elim (Bool-cases (p x)) [
  | inr n ↦ rw n (get_all_found p xs db quiet h.1)
  | inl y ↦ rw (y, get_found x db quiet h.0, get_all_found p xs db quiet h.1)
]

due_ids_run :
    (now : ℕ) (db : Db)
    → db.faults ≡ []
    → due_ids now db ≡ (ok (map (λ (r : ScheduleRow). r.id) (keep (is_due now) db.schedules)), db)
unfolding due_ids
due_ids_run now db quiet = statement_runs _ db quiet

pub due_schedules_exact :
    (now : Time) (db : Db)
    → db.faults ≡ []
    → DistinctKeys (λ (r : ScheduleRow). r.id) db.schedules
    → due_schedules now db ≡ (ok (map to_schedule (keep (is_due (unix now)) db.schedules)), db)
unfolding due_schedules
due_schedules_exact now db quiet distinct =
    rw (due_ids_run (unix now) db quiet)
      (get_all_found (is_due (unix now)) db.schedules db quiet (all_found db.schedules distinct))
