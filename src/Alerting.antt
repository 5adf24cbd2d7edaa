-- ===== src/Alerting.antt =====
-- alerting.go: fireAlert with its cooldown. What is sent is the list of deliveries tried, in order;
-- the errors of the database and of the channels are only logged.
pub mod Check
pub mod Rounds
pub mod Raised
pub mod Overflow
mod Tests
use pfortainer.Base.{
  arith, ℕ, ◌+◌, ◌*◌, ◌%◌, ◌^◌, ◌≤◌, ◌<◌, ◌≡◌, ap, Bool, true, false, not, ◌&&◌, List, [], ◌∷◌,
  ◌++◌, Text, text_eq, if◌then◌else◌,
}
use pfortainer.Store.{Time, unix, Db}
use pfortainer.Store.Alerts.{alert_fired_recently, record_alert}
use pfortainer.Store.Alerts.Laws.{recorded_is_recent}

-- The settings, less those of the SMTP server.
pub record AlertSettings : Type 0 where
  pub email_enabled : Bool
  pub webhook_enabled : Bool
  pub webhook_url : Text
  pub check_pool_health : Bool
  pub check_smart : Bool
  pub check_capacity : Bool
  pub capacity_pct : ℕ
  pub check_scrub : Bool
  pub cooldown_hours : ℕ

pub data Delivery : Type 0 where
  email : (subject body : Text) → Delivery
  webhook : (url event_type target message : Text) → Delivery

-- time.Duration(s.CooldownHours) * time.Hour. Both are int64 in two's complement, and the product wraps.
abbrev pub cooldown : AlertSettings → ℕ
cooldown s = s.cooldown_hours * 3600000000000 % 2 ^ 64

abbrev pub deliveries : AlertSettings → Text → Text → Text → Text → List Delivery
deliveries s event_type target subject body =
    (if s.email_enabled then email subject body ∷ [] else [])
    ++ (if s.webhook_enabled && not (text_eq s.webhook_url [])
        then webhook s.webhook_url event_type target subject ∷ []
        else [])

-- After the cooldown test.
abbrev pub fired : AlertSettings → Text → Text → Text → Text → Time → Bool × Db → Db × List Delivery
fired s event_type target subject body now (true, db) = (db, [])
fired s event_type target subject body now (false, db) =
    ((record_alert event_type target now db).1, deliveries s event_type target subject body)

unfoldable pub fire_alert :
    AlertSettings → Text → Text → Text → Text → Time → Db → Db × List Delivery
unfolding alert_fired_recently record_alert text_eq
fire_alert s event_type target subject body now db =
    fired s event_type target subject body now
      (alert_fired_recently event_type target (cooldown s) now db)

-- Without driver errors and with a cooldown of at most 2562047 hours, after an alert that the
-- cooldown did not suppress, an alert for the same event and target sends nothing and changes
-- nothing until the cooldown, counted from the second of the first alert, is over.
pub next_alert_suppressed :
    (s : AlertSettings) (event_type target subject body subject₂ body₂ : Text) (t later : Time)
    (db : Db)
    → db.faults ≡ []
    → s.cooldown_hours ≤ 2562047
    → alert_fired_recently event_type target (cooldown s) t db ≡ (false, db)
    → later < unix t * 1000000000 + s.cooldown_hours * 3600000000000
    → let db' = (fire_alert s event_type target subject body t db).0 in
      fire_alert s event_type target subject₂ body₂ later db' ≡ (db', [])
unfolding fire_alert
next_alert_suppressed s event_type target subject body subject₂ body₂ t later db quiet low fresh
      lt =
    let (still, recent) =
      recorded_is_recent event_type target (cooldown s) t later db quiet (omega (arith, low))
        (omega (arith, low, lt)) in
    rw fresh (ap (fired s event_type target subject₂ body₂ later) recent)
