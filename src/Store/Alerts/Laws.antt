-- ===== src/Store/Alerts/Laws.antt =====
-- What the tables `meta` and `alert_history` remember.
use pfortainer.Base.{
  ℕ, ◌+◌, ◌*◌, ◌^◌, ◌≤◌, ◌<◌, ◌≡◌, refl, sym, ap, ◌≢◌, inl, inr, Bool, true, false, List, [], ◌∷◌,
  ◌++◌, arith, Text, text_eq, text_eq_iff, text_eq_refl, ok, ltb, ◌==◌, if◌then◌else◌, Bool-cases,
}
use pfortainer.Store.{Time, unix, MetaRow, AlertRow, Db}
use pfortainer.Store.Rows.{find, update_where, count_where, next_id}
use pfortainer.Store.Statement.{statement_runs}
use pfortainer.Store.Alerts.{
  meta_key, value_of, upsert, meta_get, meta_set, is_recent, alert_fired_recently, record_alert,
  alert_row,
}

abbrev set_to : Text → ℕ → MetaRow → MetaRow
set_to value at r = record r { value = value; updated_at = at }

append_value :
    (key other value : Text) (at : ℕ) (rows : List MetaRow)
    → count_where (meta_key key) rows ≡ 0
    → value_of
        (find (meta_key other) (rows ++ record { key = key; value = value; updated_at = at } ∷ []))
      ≡ (if text_eq key other then value else value_of (find (meta_key other) rows))
unfolding find count_where
append_value key other value at [] h = ground (arith, text_eq_iff key other)
append_value key other value at (r ∷ rows) h = ground (
  arith,
  append_value key other value at rows,
  text_eq_iff key other,
  text_eq_iff r.key key,
  text_eq_iff r.key other,
)

update_other :
    (key other value : Text) (at : ℕ) (rows : List MetaRow)
    → text_eq key other ≡ false
    → find (meta_key other) (update_where (meta_key key) (set_to value at) rows)
      ≡ find (meta_key other) rows
unfolding find update_where
update_other key other value at [] ne = refl
update_other key other value at (r ∷ rows) ne = ground (
  arith,
  update_other key other value at rows ne,
  text_eq_iff key other,
  text_eq_iff r.key key,
  text_eq_iff r.key other,
)

update_value :
    (key value : Text) (at : ℕ) (rows : List MetaRow)
    → count_where (meta_key key) rows ≢ 0
    → value_of (find (meta_key key) (update_where (meta_key key) (set_to value at) rows)) ≡ value
unfolding find update_where count_where
update_value key value at [] h = absurd (h refl)
update_value key value at (r ∷ rows) h = elim (Bool-cases (text_eq r.key key)) [
  | inl e ↦ rw (e, e) refl
  | inr n ↦ rw (n, n) (update_value key value at rows (ground arith))
]

pub upsert-find :
    (key other value : Text) (at : ℕ) (rows : List MetaRow)
    → value_of (find (meta_key other) (upsert key value at rows))
      ≡ (if text_eq key other then value else value_of (find (meta_key other) rows))
upsert-find key other value at rows = elim (Bool-cases (count_where (meta_key key) rows == 0)) [
  | inl free ↦ rw free (append_value key other value at rows (ground arith))
  | inr taken ↦ rw taken (elim (Bool-cases (text_eq key other)) [
    | inr ne ↦ rw ne (ap value_of (update_other key other value at rows ne))
    | inl e ↦
        rw (e, sym ((text_eq_iff key other).0 e)) (update_value key value at rows (ground arith))
  ])
]

meta_set_runs :
    (key value : Text) (now : Time) (db : Db)
    → db.faults ≡ []
    → meta_set key value now db ≡ (ok tt, record db { meta = upsert key value (unix now) db.meta })
unfolding meta_set
meta_set_runs key value now db quiet = statement_runs _ db quiet

meta_get_runs :
    (key : Text) (db : Db)
    → db.faults ≡ []
    → meta_get key db ≡ (ok (value_of (find (meta_key key) db.meta)), db)
unfolding meta_get
meta_get_runs key db quiet = statement_runs _ db quiet

-- With no driver error, MetaGet after MetaSet of a key reads the value set, and any other key reads
-- what it read before.
pub meta_get-meta_set :
    (key other value : Text) (now : Time) (db : Db)
    → db.faults ≡ []
    → (meta_get other (meta_set key value now db).1).0
      ≡ (if text_eq key other then ok value else (meta_get other db).0)
meta_get-meta_set key other value now db quiet =
    rw
      (
        meta_set_runs key value now db quiet,
        meta_get_runs other db quiet,
        meta_get_runs other (record db { meta = upsert key value (unix now) db.meta }) quiet,
        upsert-find key other value (unix now) db.meta,
      )
      (ground arith)

pub count-append :
    (p : AlertRow → Bool) (rows : List AlertRow) (z : AlertRow)
    → p z ≡ true
    → 0 < count_where p (rows ++ z ∷ [])
unfolding count_where
count-append p [] z h = ground arith
count-append p (r ∷ rows) z h = ground (arith, count-append p rows z h)

abbrev added : Text → Text → Time → Db → Db
added event_type target t db = record db {
  alert_history =
      db.alert_history
      ++ alert_row event_type target t (next_id (λ (r : AlertRow). r.id) db.alert_history) ∷ [];
}

pub record_alert_runs :
    (event_type target : Text) (t : Time) (db : Db)
    → db.faults ≡ []
    → record_alert event_type target t db ≡ (ok tt, added event_type target t db)
unfolding record_alert
record_alert_runs event_type target t db quiet = statement_runs _ db quiet

pub alert_fired_recently_runs :
    (event_type target : Text) (cooldown : ℕ) (now : Time) (db : Db)
    → db.faults ≡ []
    → alert_fired_recently event_type target cooldown now db
      ≡ (ltb 0 (count_where (is_recent event_type target cooldown now) db.alert_history), db)
unfolding alert_fired_recently
alert_fired_recently_runs event_type target cooldown now db quiet =
    rw
      (statement_runs
        (λ (db : Db).
          (ok (count_where (is_recent event_type target cooldown now) db.alert_history), db))
        db quiet)
      refl

-- An alert that was recorded has fired recently until the cooldown is over.
pub recorded_is_recent :
    (event_type target : Text) (cooldown : ℕ) (t later : Time) (db : Db)
    → db.faults ≡ []
    → cooldown ≤ 2 ^ 63
    → later < unix t * 1000000000 + cooldown
    → ((record_alert event_type target t db).1.faults ≡ [])
      × (alert_fired_recently event_type target cooldown later
            (record_alert event_type target t db).1
          ≡ (true, (record_alert event_type target t db).1))
recorded_is_recent event_type target cooldown t later db quiet le h =
    let z = alert_row event_type target t (next_id (λ (r : AlertRow). r.id) db.alert_history) in
    let counted =
      count-append (is_recent event_type target cooldown later) db.alert_history z
        (ground (arith, text_eq_refl event_type, text_eq_refl target)) in
    rw (record_alert_runs event_type target t db quiet) (
      quiet,
      rw
          (alert_fired_recently_runs event_type target cooldown later (added event_type target t db)
            quiet)
          (ground arith),
    )
