-- ===== src/Alerting/Overflow.antt =====
-- What the wrapped product of fireAlert does with a long cooldown.
use pfortainer.Base.{◌*◌, ◌≤◌, ◌≡◌, refl, ap, ◌∙◌, List, [], ◌∷◌, arith, Text, All}
use pfortainer.Store.{Time, AlertRow, Db}
use pfortainer.Store.Rows.{count_where}
use pfortainer.Store.Alerts.{is_recent, record_alert}
use pfortainer.Store.Alerts.Laws.{alert_fired_recently_runs}
use pfortainer.Alerting.{AlertSettings, cooldown, deliveries, fired, fire_alert}

none_recent :
    (event_type target : Text) (s : AlertSettings) (now : Time) (rows : List AlertRow)
    → 2562048 ≤ s.cooldown_hours
    → s.cooldown_hours ≤ 5124095
    → All (λ r. r.fired_at * 1000000000 ≤ now) rows
    → count_where (is_recent event_type target (cooldown s) now) rows ≡ 0
unfolding count_where
none_recent event_type target s now [] long short past = refl
none_recent event_type target s now (r ∷ rows) long short past =
    ground (arith, none_recent event_type target s now rows long short past.1, past.0)

-- Without driver errors, with a cooldown from 2562048 to 5124095 hours and a history of alerts none
-- of which lies in the future, an alert is recorded and sent whatever was sent before: the cooldown
-- is a negative number of nanoseconds.
pub long_cooldown_suppresses_nothing :
    (s : AlertSettings) (event_type target subject body : Text) (now : Time) (db : Db)
    → db.faults ≡ []
    → 2562048 ≤ s.cooldown_hours
    → s.cooldown_hours ≤ 5124095
    → All (λ r. r.fired_at * 1000000000 ≤ now) db.alert_history
    → fire_alert s event_type target subject body now db
      ≡ ((record_alert event_type target now db).1, deliveries s event_type target subject body)
unfolding fire_alert
long_cooldown_suppresses_nothing s event_type target subject body now db quiet long short past =
    let zero_rows = none_recent event_type target s now db.alert_history long short past in
    ap (fired s event_type target subject body now)
      (alert_fired_recently_runs event_type target (cooldown s) now db quiet)
    ∙ rw zero_rows refl
