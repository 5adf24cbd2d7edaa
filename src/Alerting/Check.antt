-- ===== src/Alerting/Check.antt =====
-- alerting.go: the stored settings and checkAndFireAlerts. What poolStatus, smartSummary and
-- listZFSPools return is an argument, as is the time, which is taken once for a whole check; texts
-- are given by their code points, and JSON's two directions are parameters.
use pfortainer.Base.{
  ℕ, Bool, true, false, not, ◌&&◌, ◌||◌, List, [], ◌∷◌, ◌++◌, ◌*◌, Text, codes, text_eq, contains,
  decimal, Result, ok, err, ltb, leb, if◌then◌else◌,
}
use pfortainer.Store.{Time, Db, Sql}
use pfortainer.Store.Alerts.{meta_get, meta_set, prune_alert_history}
use pfortainer.Storage.{PoolStatus}
use pfortainer.Storage.Disks.{DiskSmart}
use pfortainer.Datasets.{Pool}
use pfortainer.Alerting.{AlertSettings, Delivery, fire_alert}

abbrev default_alert_settings : AlertSettings
default_alert_settings = record {
  email_enabled = false;
  webhook_enabled = false;
  webhook_url = [];
  check_pool_health = true;
  check_smart = true;
  check_capacity = true;
  capacity_pct = 85;
  check_scrub = true;
  cooldown_hours = 4;
}

abbrev settings_key : Text
settings_key = codes "alert_settings"

-- json.Unmarshal changes the fields that the text names.
module _ (unmarshal : Text → AlertSettings → AlertSettings) where
  abbrev settings_from : Result Text → AlertSettings
  settings_from (err e) = default_alert_settings
  settings_from (ok v) =
      if text_eq v [] then default_alert_settings else unmarshal v default_alert_settings

  unfoldable pub load_alert_settings : Db → AlertSettings × Db
  unfolding meta_get text_eq
  load_alert_settings db = let (v, db') = meta_get settings_key db in (settings_from v, db')

-- Marshal has no error on a struct of such fields.
unfoldable pub save_alert_settings : (AlertSettings → Text) → AlertSettings → Time → Sql (Unit {0})
unfolding meta_set
save_alert_settings marshal s now = meta_set settings_key (marshal s) now

-- A part of a check: what it does to the database, and what it sends.
abbrev pub Round : Type 0
Round = Db → Db × List Delivery

unfoldable pub skip : Round
skip db = (db, [])

unfoldable pub both : Round → Round → Round
both f g db = let (db', sent) = f db in let (db'', more) = g db' in (db'', sent ++ more)

unfoldable pub when : Bool → Round → Round
unfolding skip
when b f = if b then f else skip

unfoldable pub each : {A : Type 0} → (A → Round) → List A → Round
unfolding skip both
each f [] = skip
each f (x ∷ xs) = both (f x) (each f xs)

-- An error is only logged.
unfoldable pub each_of : {A : Type 0} → Result (List A) → (A → Round) → Round
unfolding skip each
each_of (err e) f = skip
each_of (ok xs) f = each f xs

abbrev line : Text → Text
line t = t ++ 10 ∷ []

abbrev pub scrub_failed : PoolStatus → Bool
scrub_failed p = contains p.scan (codes "repaired") && not (contains p.scan (codes "with 0 errors"))

unfoldable pub pool_round : AlertSettings → Time → PoolStatus → Round
unfolding both when fire_alert contains
pool_round s now p =
    both
      (when (s.check_pool_health && not p.healthy) (
        fire_alert s (codes "pool_health") p.name
          (codes "[pfortainer] ZFS 풀 경보: " ++ p.name ++ codes " (" ++ p.state ++ codes ")")
          (line (codes "풀: " ++ p.name)
            ++ line (codes "상태: " ++ p.state)
            ++ line []
            ++ line p.status
            ++ p.action)
          now))
      (when (s.check_scrub && scrub_failed p) (
        fire_alert s (codes "scrub_error") p.name (codes "[pfortainer] ZFS 스크럽 에러: " ++ p.name)
          (line (codes "풀: " ++ p.name) ++ codes "스크럽 결과: " ++ p.scan) now))

unfoldable pub disk_round : AlertSettings → Time → DiskSmart → Round
unfolding when fire_alert
disk_round s now d = when (not d.healthy) (
    fire_alert s (codes "smart_health") d.device
      (codes "[pfortainer] SMART 경보: " ++ d.device ++ codes " (" ++ d.health ++ codes ")")
      (line (codes "디스크: " ++ d.device)
        ++ line (codes "모델: " ++ d.model)
        ++ line (codes "S/N: " ++ d.serial)
        ++ line (codes "SMART 상태: " ++ d.health)
        ++ codes "용량: "
        ++ d.capacity)
      now)

unfoldable pub capacity_round : AlertSettings → Time → Pool → Round
unfolding when fire_alert decimal
capacity_round s now p = when (leb s.capacity_pct p.use_pct) (
    fire_alert s (codes "pool_capacity") p.name
      (codes "[pfortainer] 풀 용량 경보: " ++ p.name ++ codes " (" ++ decimal p.use_pct ++ codes "%)")
      (line (codes "풀: " ++ p.name)
        ++ line (
            codes "사용률: "
            ++ decimal p.use_pct
            ++ codes "% (임계: "
            ++ decimal s.capacity_pct
            ++ codes "%)")
        ++ line []
        ++ codes "전체: "
        ++ p.size
        ++ codes " / 사용: "
        ++ p.alloc
        ++ codes " / 여유: "
        ++ p.free)
      now)

abbrev pub week : ℕ
week = 7 * 24 * 3600000000000

unfoldable pub pool_part : AlertSettings → Result (List PoolStatus) → Time → Round
unfolding when each_of pool_round
pool_part s pools now =
    when (s.check_pool_health || s.check_scrub) (each_of pools (pool_round s now))

unfoldable pub disk_part : AlertSettings → Result (List DiskSmart) → Time → Round
unfolding when each_of disk_round
disk_part s disks now = when s.check_smart (each_of disks (disk_round s now))

unfoldable pub capacity_part : AlertSettings → Result (List Pool) → Time → Round
unfolding when each_of capacity_round
capacity_part s zpools now =
    when (s.check_capacity && ltb 0 s.capacity_pct) (each_of zpools (capacity_round s now))

-- The three parts, before the history is pruned.
unfoldable pub rounds :
    AlertSettings
    → Result (List PoolStatus)
    → Result (List DiskSmart)
    → Result (List Pool)
    → Time
    → Round
unfolding both pool_part disk_part capacity_part
rounds s pools disks zpools now =
    both (pool_part s pools now) (both (disk_part s disks now) (capacity_part s zpools now))

abbrev pub pruned : Time → Db × List Delivery → Db × List Delivery
pruned now (db, sent) = (prune_alert_history week now db, sent)

-- With the settings that were loaded.
unfoldable pub check_with :
    Result (List PoolStatus)
    → Result (List DiskSmart)
    → Result (List Pool)
    → Time
    → AlertSettings × Db
    → Db × List Delivery
unfolding rounds prune_alert_history
check_with pools disks zpools now (s, db) =
    if not s.email_enabled && not s.webhook_enabled
    then (db, [])
    else pruned now (rounds s pools disks zpools now db)

unfoldable pub check_and_fire_alerts :
    (Text → AlertSettings → AlertSettings)
    → Result (List PoolStatus)
    → Result (List DiskSmart)
    → Result (List Pool)
    → Time
    → Round
unfolding load_alert_settings check_with
check_and_fire_alerts unmarshal pools disks zpools now db =
    check_with pools disks zpools now (load_alert_settings unmarshal db)
