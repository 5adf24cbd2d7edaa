-- ===== src/Store/Alerts/Recent.antt =====
-- How long the history of alerts keeps a recent alert.
use pfortainer.Base.{
  ℕ, ◌+◌, ◌*◌, ◌^◌, ◌≤◌, ◌<◌, ◌≡◌, refl, ap, Bool, true, false, List, [], ◌∷◌, ◌++◌, arith, Text,
  text_eq_refl,
}
use pfortainer.Store.{Time, unix, AlertRow, Db}
use pfortainer.Store.Rows.{count_where, delete_where, next_id}
use pfortainer.Store.Statement.{statement_runs}
use pfortainer.Store.Alerts.{
  is_recent, is_older, alert_fired_recently, record_alert, alert_row, prune_alert_history,
}
use pfortainer.Store.Alerts.Laws.{count-append, alert_fired_recently_runs, record_alert_runs}

module _ {A : Type 0} (p : A → Bool) where
  count-append_le : (xs ys : List A) → count_where p xs ≤ count_where p (xs ++ ys)
  unfolding count_where
  count-append_le [] ys = omega arith
  count-append_le (x ∷ xs) ys = ground (arith, count-append_le xs ys)

  -- Rows that satisfy p are all kept where no row satisfies both.
  count-delete_where :
      (q : A → Bool) (xs : List A)
      → ((x : A) → p x ≡ true → q x ≡ false)
      → count_where p (delete_where q xs) ≡ count_where p xs
  unfolding count_where delete_where
  count-delete_where q [] apart = refl
  count-delete_where q (x ∷ xs) apart = ground (arith, count-delete_where q xs apart, apart x)

-- A recent row is not yet pruned.
recent_not_older :
    (event_type target : Text) (cooldown older_than : ℕ) (now : Time)
    → cooldown ≤ older_than
    → (r : AlertRow) → is_recent event_type target cooldown now r ≡ true
    → is_older older_than now r ≡ false
recent_not_older event_type target cooldown older_than now le r h = ground arith

-- The alert has fired recently.
abbrev pub Recent : Text → Text → ℕ → Time → Db → Type 0
Recent event_type target cooldown now db =
    0 < count_where (is_recent event_type target cooldown now) db.alert_history

pub Recent-fired :
    (event_type target : Text) (cooldown : ℕ) (now : Time) (db : Db)
    → db.faults ≡ []
    → Recent event_type target cooldown now db
    → alert_fired_recently event_type target cooldown now db ≡ (true, db)
Recent-fired event_type target cooldown now db quiet h =
    rw (alert_fired_recently_runs event_type target cooldown now db quiet) (ground arith)

pub Recent-record_alert :
    (event_type target other at : Text) (cooldown : ℕ) (now later : Time) (db : Db)
    → db.faults ≡ []
    → Recent event_type target cooldown now db
    → ((record_alert other at later db).1.faults ≡ [])
      × Recent event_type target cooldown now (record_alert other at later db).1
Recent-record_alert event_type target other at cooldown now later db quiet h =
    let z = alert_row other at later (next_id (λ (r : AlertRow). r.id) db.alert_history) in
    let more =
      count-append_le (is_recent event_type target cooldown now) db.alert_history (z ∷ []) in
    rw (record_alert_runs other at later db quiet) (quiet, omega (arith, h, more))

-- A recorded alert is recent for a cooldown that reaches beyond the second of the alert.
pub recorded-Recent :
    (event_type target : Text) (cooldown : ℕ) (now : Time) (db : Db)
    → db.faults ≡ []
    → cooldown ≤ 2 ^ 63
    → now < unix now * 1000000000 + cooldown
    → ((record_alert event_type target now db).1.faults ≡ [])
      × Recent event_type target cooldown now (record_alert event_type target now db).1
recorded-Recent event_type target cooldown now db quiet le h =
    let z = alert_row event_type target now (next_id (λ (r : AlertRow). r.id) db.alert_history) in
    rw (record_alert_runs event_type target now db quiet) (
      quiet,
      count-append (is_recent event_type target cooldown now) db.alert_history z
          (ground (arith, text_eq_refl event_type, text_eq_refl target)),
    )

prune_runs :
    (older_than : ℕ) (now : Time) (db : Db)
    → db.faults ≡ []
    → prune_alert_history older_than now db
      ≡ record db { alert_history = delete_where (is_older older_than now) db.alert_history }
unfolding prune_alert_history
prune_runs older_than now db quiet = ap (λ r. r.1) (statement_runs {A = Unit {0}} _ db quiet)

pub Recent-prune_alert_history :
    (event_type target : Text) (cooldown older_than : ℕ) (now : Time) (db : Db)
    → db.faults ≡ []
    → cooldown ≤ older_than
    → Recent event_type target cooldown now db
    → ((prune_alert_history older_than now db).faults ≡ [])
      × Recent event_type target cooldown now (prune_alert_history older_than now db)
Recent-prune_alert_history event_type target cooldown older_than now db quiet le h =
    let kept =
      count-delete_where (is_recent event_type target cooldown now) (is_older older_than now)
        db.alert_history (recent_not_older event_type target cooldown older_than now le) in
    rw (prune_runs older_than now db quiet) (quiet, omega (arith, h, kept))
