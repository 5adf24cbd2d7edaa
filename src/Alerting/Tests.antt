-- ===== src/Alerting/Tests.antt =====
-- Two alerts of the same event, and a check that finds a broken pool.
use pfortainer.Base.{
  All, ◌≤◌, Memᴰ, ◌∷◌, ok, ◌+◌, ◌*◌, ◌<◌, ◌≡◌, refl, true, false, [], arith, Text, codes,
}
use pfortainer.Store.{Time, unix, Db, empty_db, statement}
use pfortainer.Store.Rows.{count_where, find}
use pfortainer.Store.Alerts.{record_alert, alert_fired_recently, meta_get, meta_set}
use pfortainer.Storage.{PoolStatus}
use pfortainer.Alerting.Check.{load_alert_settings, save_alert_settings, check_and_fire_alerts}
use pfortainer.Alerting.Raised.{Trouble, troubles_recorded}
use pfortainer.Alerting.Overflow.{long_cooldown_suppresses_nothing}
use pfortainer.Alerting.{deliveries, AlertSettings, cooldown, fire_alert, next_alert_suppressed}

abbrev settings : AlertSettings
settings = record {
  email_enabled = true;
  webhook_enabled = false;
  webhook_url = [];
  check_pool_health = true;
  check_smart = true;
  check_capacity = true;
  capacity_pct = 85;
  check_scrub = true;
  cooldown_hours = 4;
}

abbrev pool : Text
pool = codes "tank"

abbrev health : Text
health = codes "pool_health"

abbrev first : Time
first = 1700000000500000000

abbrev after_first : Db
after_first = (fire_alert settings health pool (codes "a") (codes "b") first empty_db).0

none_yet : alert_fired_recently health pool (cooldown settings) first empty_db ≡ (false, empty_db)
unfolding alert_fired_recently statement count_where
none_yet = refl

within : first + 3600000000000 < unix first * 1000000000 + settings.cooldown_hours * 3600000000000
unfolding unix
within = omega arith

next_alert_suppressed_example :
    fire_alert settings health pool (codes "c") (codes "d") (first + 3600000000000) after_first
    ≡ (after_first, [])
next_alert_suppressed_example =
    next_alert_suppressed settings health pool (codes "a") (codes "b") (codes "c") (codes "d") first
      (first + 3600000000000) empty_db refl (omega arith) none_yet within

abbrev broken : PoolStatus
broken = record {
  name = pool;
  state = codes "DEGRADED";
  status = [];
  action = [];
  scan = [];
  errors = [];
  vdevs = [];
  healthy = false;
}

abbrev stored : Db
stored = (save_alert_settings (λ s. codes "{}") settings first empty_db).1

abbrev read_back : Text → AlertSettings → AlertSettings
read_back v s = settings

loads : load_alert_settings read_back stored ≡ (settings, stored)
unfolding load_alert_settings save_alert_settings meta_get meta_set statement find
loads = refl

stored_quiet : stored.faults ≡ []
unfolding save_alert_settings meta_set statement
stored_quiet = refl

abbrev checked : Db
checked = (check_and_fire_alerts read_back (ok (broken ∷ [])) (ok []) (ok []) first stored).0

troubles_recorded_example :
    alert_fired_recently health pool (cooldown settings) first checked ≡ (true, checked)
troubles_recorded_example =
    troubles_recorded read_back (ok (broken ∷ [])) (ok []) (ok []) settings first stored
      stored_quiet loads refl (omega arith) (omega arith)
      (Trouble.unhealthy (broken ∷ []) broken refl (Memᴰ.head refl) refl refl)

-- 2562048 hours, a negative number of nanoseconds.
abbrev ages : AlertSettings
ages = record settings { cooldown_hours = 2562048 }

abbrev second_alert : Time
second_alert = first + 3600000000000

fired_before : All (λ r. r.fired_at * 1000000000 ≤ second_alert) after_first.alert_history
unfolding fire_alert alert_fired_recently record_alert statement count_where unix
fired_before = (omega arith, tt)

after_first_quiet : after_first.faults ≡ []
unfolding fire_alert alert_fired_recently record_alert statement count_where
after_first_quiet = refl

long_cooldown_suppresses_nothing_example :
    fire_alert ages health pool (codes "c") (codes "d") second_alert after_first ≡ (
      (record_alert health pool second_alert after_first).1,
      deliveries ages health pool (codes "c") (codes "d"),
    )
long_cooldown_suppresses_nothing_example =
    long_cooldown_suppresses_nothing ages health pool (codes "c") (codes "d") second_alert
      after_first after_first_quiet (omega arith) (omega arith) fired_before
