-- ===== src/Store.antt =====
-- configdb.go: the SQLite tables as lists of rows in rowid order, and what its statements do.
-- The driver may fail at any statement: `faults` holds its coming answers, an error or none, and
-- no more of them than there are means that the later statements succeed.
pub mod Rows
pub mod Statement
pub mod Users
pub mod Schedules
pub mod Alerts
pub mod Replication
mod Tests
use pfortainer.Base.{
  ℕ, ◌/◌, Option, none, some, List, [], ◌∷◌, Text, Bool, Result, ok, err, true, false,
}

-- Nanoseconds since 1970 UTC, which is what time.Now() is used for; and Time.Unix.
abbrev pub Time : Type 0
Time = ℕ

unfoldable pub unix : Time → ℕ
unix t = t / 1000000000

pub record UserRow : Type 0 where
  pub id : ℕ
  pub username : Text
  pub password_hash : Text
  pub role : Text
  pub created_at : ℕ
  pub totp_secret : Text
  pub totp_enabled : ℕ

pub record MetaRow : Type 0 where
  pub key : Text
  pub value : Text
  pub updated_at : ℕ

pub record ScheduleRow : Type 0 where
  pub id : ℕ
  pub type : Text
  pub target : Text
  pub frequency : Text
  pub retention : ℕ
  pub prefix : Text
  pub enabled : ℕ
  pub last_run : Option ℕ
  pub next_run : Option ℕ
  pub created_at : ℕ

pub record AlertRow : Type 0 where
  pub id : ℕ
  pub event_type : Text
  pub target : Text
  pub fired_at : ℕ

pub record ReplRow : Type 0 where
  pub id : ℕ
  pub name : Text
  pub source_dataset : Text
  pub target_path : Text
  pub recursive : ℕ
  pub schedule : Text
  pub last_snapshot : Text
  pub last_run_at : Option ℕ
  pub last_status : Text
  pub last_error : Text
  pub enabled : ℕ
  pub created_at : ℕ

-- `repl_seq` is the largest id that AUTOINCREMENT has given.
pub record Db : Type 0 where
  pub users : List UserRow
  pub meta : List MetaRow
  pub schedules : List ScheduleRow
  pub alert_history : List AlertRow
  pub replication_tasks : List ReplRow
  pub repl_seq : ℕ
  pub faults : List (Option Text)

-- A freshly migrated database.
abbrev pub empty_db : Db
empty_db = record {
  users = [];
  meta = [];
  schedules = [];
  alert_history = [];
  replication_tasks = [];
  repl_seq = 0;
  faults = [];
}

abbrev pub Sql : Type 0 → Type 0
Sql A = Db → Result A × Db

module _ {A : Type 0} where
  abbrev answer : Option Text → Sql A → Sql A
  answer none body db = body db
  answer (some e) body db = (err e, db)

  -- One statement: the driver's error, or the effect.
  abbrev with_faults : List (Option Text) → Sql A → Sql A
  with_faults [] body db = body db
  with_faults (f ∷ fs) body db = answer f body (record db { faults = fs })

  unfoldable pub statement : Sql A → Sql A
  statement body db = with_faults db.faults body db

module _ {A B : Type 0} where
  -- The rest of a function after `if err != nil { return err }`.
  abbrev pub and_then : Result A × Db → (A → Sql B) → Result B × Db
  and_then (ok a, db) f = f a db
  and_then (err e, db) f = (err e, db)

unfoldable pub bool_int : Bool → ℕ
bool_int true = 1
bool_int false = 0
