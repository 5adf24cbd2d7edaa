-- ===== src/Alerting/Raised.antt =====
-- What checkAndFireAlerts leaves in the history of alerts.
use pfortainer.Base.{
  ◌≤◌, ◌<◌, ◌≡◌, refl, ◌∙◌, ap, true, false, not, ◌&&◌, ◌||◌, List, [], Memᴰ, arith, Text, codes,
  Result, ok,
}
use pfortainer.Store.{Time, Db}
use pfortainer.Store.Alerts.{alert_fired_recently}
use pfortainer.Store.Alerts.Recent.{Recent, Recent-fired, Recent-prune_alert_history}
use pfortainer.Storage.{PoolStatus}
use pfortainer.Storage.Disks.{DiskSmart}
use pfortainer.Datasets.{Pool}
use pfortainer.Alerting.{AlertSettings, cooldown}
use pfortainer.Alerting.Check.{
  Round, each_of, scrub_failed, pool_round, disk_round, capacity_round, pool_part, disk_part,
  capacity_part, rounds, check_with, week, pruned, load_alert_settings, check_and_fire_alerts,
}
use pfortainer.Alerting.Rounds.{
  Leaves, Keeps, Stable, both-Keeps, when-Keeps, both-first, each_of-Keeps, when-Leaves, both-last,
  each-Leaves, Unit-Stable, Recent-Stable, fire_alert-Keeps, fire_alert-Leaves, pool_round-Keeps,
  disk_round-Keeps, capacity_round-Keeps,
}

-- What poolStatus, smartSummary and listZFSPools report that the settings ask for, by the event and
-- the target of its alert.
pub data Trouble (s : AlertSettings) (pools : Result (List PoolStatus))
    (disks : Result (List DiskSmart)) (zpools : Result (List Pool)) : Text → Text → Type 0 where
  unhealthy :
      (ps : List PoolStatus) (p : PoolStatus)
      → pools ≡ ok ps
      → Memᴰ p ps
      → s.check_pool_health ≡ true
      → p.healthy ≡ false
      → Trouble s pools disks zpools (codes "pool_health") p.name
  scrub :
      (ps : List PoolStatus) (p : PoolStatus)
      → pools ≡ ok ps
      → Memᴰ p ps
      → s.check_scrub ≡ true
      → scrub_failed p ≡ true
      → Trouble s pools disks zpools (codes "scrub_error") p.name
  failing :
      (ds : List DiskSmart) (d : DiskSmart)
      → disks ≡ ok ds
      → Memᴰ d ds
      → s.check_smart ≡ true
      → d.healthy ≡ false
      → Trouble s pools disks zpools (codes "smart_health") d.device
  full :
      (ps : List Pool) (p : Pool)
      → zpools ≡ ok ps
      → Memᴰ p ps
      → s.check_capacity ≡ true
      → 0 < s.capacity_pct
      → s.capacity_pct ≤ p.use_pct
      → Trouble s pools disks zpools (codes "pool_capacity") p.name

module _ (s : AlertSettings) (now : Time) (hours : 1 ≤ s.cooldown_hours)
    (short : s.cooldown_hours ≤ 168) where
  each_of-Leaves :
      {A : Type 0} (event_type target : Text) (f : A → Round)
      → ((P : Db → Type 0) → Stable P → (x : A) → Keeps P (f x))
      → (found : Result (List A)) (xs : List A) (x : A) → found ≡ ok xs
      → Memᴰ x xs
      → Leaves (Recent event_type target (cooldown s) now) (f x)
      → Leaves (Recent event_type target (cooldown s) now) (each_of found f)
  unfolding each_of
  each_of-Leaves event_type target f kf found xs x e m lf = rw e (
      each-Leaves (Recent event_type target (cooldown s) now) f (kf (λ db. Unit {0}) Unit-Stable)
        (kf (Recent event_type target (cooldown s) now) (Recent-Stable s now event_type target)) xs
        m lf)

  pool_round-health :
      (p : PoolStatus)
      → s.check_pool_health ≡ true
      → p.healthy ≡ false
      → Leaves (Recent (codes "pool_health") p.name (cooldown s) now) (pool_round s now p)
  unfolding pool_round
  pool_round-health p on bad =
      let P = Recent (codes "pool_health") p.name (cooldown s) now in
      both-first P _ _
        (when-Leaves P _ _ (ground (arith, on, bad)) (fire_alert-Leaves s now _ _ _ _ hours short))
        (when-Keeps P _ _
          (fire_alert-Keeps s now P (Recent-Stable s now (codes "pool_health") p.name) _ _ _ _))

  pool_round-scrub :
      (p : PoolStatus)
      → s.check_scrub ≡ true
      → scrub_failed p ≡ true
      → Leaves (Recent (codes "scrub_error") p.name (cooldown s) now) (pool_round s now p)
  unfolding pool_round
  pool_round-scrub p on bad =
      both-last (Recent (codes "scrub_error") p.name (cooldown s) now) _ _
        (when-Keeps (λ db. Unit {0}) _ _
          (fire_alert-Keeps s now (λ db. Unit {0}) Unit-Stable _ _ _ _))
        (when-Leaves (Recent (codes "scrub_error") p.name (cooldown s) now) _ _ (rw on bad)
          (fire_alert-Leaves s now _ _ _ _ hours short))

  disk_round-health :
      (d : DiskSmart)
      → d.healthy ≡ false
      → Leaves (Recent (codes "smart_health") d.device (cooldown s) now) (disk_round s now d)
  unfolding disk_round
  disk_round-health d bad =
      when-Leaves (Recent (codes "smart_health") d.device (cooldown s) now) _ _
        (ground (arith, bad)) (fire_alert-Leaves s now _ _ _ _ hours short)

  capacity_round-full :
      (p : Pool)
      → s.capacity_pct ≤ p.use_pct
      → Leaves (Recent (codes "pool_capacity") p.name (cooldown s) now) (capacity_round s now p)
  unfolding capacity_round
  capacity_round-full p bad =
      when-Leaves (Recent (codes "pool_capacity") p.name (cooldown s) now) _ _ (ground (arith, bad))
        (fire_alert-Leaves s now _ _ _ _ hours short)

  module _ (pools : Result (List PoolStatus)) (disks : Result (List DiskSmart))
      (zpools : Result (List Pool)) where
    pool_part-Keeps : (P : Db → Type 0) → Stable P → Keeps P (pool_part s pools now)
    unfolding pool_part
    pool_part-Keeps P st = when-Keeps P _ _ (each_of-Keeps P _ pools (pool_round-Keeps s now P st))

    disk_part-Keeps : (P : Db → Type 0) → Stable P → Keeps P (disk_part s disks now)
    unfolding disk_part
    disk_part-Keeps P st = when-Keeps P _ _ (each_of-Keeps P _ disks (disk_round-Keeps s now P st))

    capacity_part-Keeps : (P : Db → Type 0) → Stable P → Keeps P (capacity_part s zpools now)
    unfolding capacity_part
    capacity_part-Keeps P st =
        when-Keeps P _ _ (each_of-Keeps P _ zpools (capacity_round-Keeps s now P st))

    pool_first :
        (event_type target : Text)
        → Leaves (Recent event_type target (cooldown s) now) (pool_part s pools now)
        → Leaves (Recent event_type target (cooldown s) now) (rounds s pools disks zpools now)
    unfolding rounds
    pool_first event_type target leaves =
        let P = Recent event_type target (cooldown s) now in
        let st = Recent-Stable s now event_type target in
        both-first P _ _ leaves (both-Keeps P _ _ (disk_part-Keeps P st) (capacity_part-Keeps P st))

    rounds-Leaves :
        {event_type target : Text}
        → Trouble s pools disks zpools event_type target
        → Leaves (Recent event_type target (cooldown s) now) (rounds s pools disks zpools now)
    unfolding rounds pool_part disk_part capacity_part
    rounds-Leaves (Trouble.unhealthy ps p e m on bad) = pool_first (codes "pool_health") p.name (
        when-Leaves (Recent (codes "pool_health") p.name (cooldown s) now)
          (s.check_pool_health || s.check_scrub) _ (ground (arith, on))
          (each_of-Leaves (codes "pool_health") p.name (pool_round s now)
            (λ P st. pool_round-Keeps s now P st) pools ps p e m (pool_round-health p on bad)))
    rounds-Leaves (Trouble.scrub ps p e m on bad) = pool_first (codes "scrub_error") p.name (
        when-Leaves (Recent (codes "scrub_error") p.name (cooldown s) now)
          (s.check_pool_health || s.check_scrub) _ (ground (arith, on))
          (each_of-Leaves (codes "scrub_error") p.name (pool_round s now)
            (λ P st. pool_round-Keeps s now P st) pools ps p e m (pool_round-scrub p on bad)))
    rounds-Leaves (Trouble.failing ds d e m on bad) =
        let P = Recent (codes "smart_health") d.device (cooldown s) now in
        both-last P _ _ (pool_part-Keeps (λ db. Unit {0}) Unit-Stable) (
          both-first P _ _
            (when-Leaves P _ _ on (
              each_of-Leaves (codes "smart_health") d.device (disk_round s now)
                (λ Q st. disk_round-Keeps s now Q st) disks ds d e m (disk_round-health d bad)))
            (capacity_part-Keeps P (Recent-Stable s now (codes "smart_health") d.device)))
    rounds-Leaves (Trouble.full ps p e m on pos bad) =
        let P = Recent (codes "pool_capacity") p.name (cooldown s) now in
        both-last P _ _ (pool_part-Keeps (λ db. Unit {0}) Unit-Stable) (
          both-last P _ _ (disk_part-Keeps (λ db. Unit {0}) Unit-Stable) (
            when-Leaves P _ _ (ground (arith, on, pos)) (
              each_of-Leaves (codes "pool_capacity") p.name (capacity_round s now)
                (λ Q st. capacity_round-Keeps s now Q st) zpools ps p e m
                (capacity_round-full p bad))))

check_runs :
    (unmarshal : Text → AlertSettings → AlertSettings) (pools : Result (List PoolStatus))
    (disks : Result (List DiskSmart)) (zpools : Result (List Pool)) (s : AlertSettings) (now : Time)
    (db : Db)
    → load_alert_settings unmarshal db ≡ (s, db)
    → (s.email_enabled || s.webhook_enabled) ≡ true
    → check_and_fire_alerts unmarshal pools disks zpools now db
      ≡ pruned now (rounds s pools disks zpools now db)
unfolding check_and_fire_alerts check_with
check_runs unmarshal pools disks zpools s now db loaded on =
    let off : (not s.email_enabled && not s.webhook_enabled) ≡ false = ground (arith, on) in
    ap (check_with pools disks zpools now) loaded ∙ rw off refl

-- Without driver errors, where the settings that are loaded enable a channel and have a cooldown of
-- 1 hour to a week, each trouble that the host reports and the settings ask for (an unhealthy pool
-- or disk, a scrub that found errors, a pool that is too full) is recorded after the check: its
-- alert counts as fired recently.
pub troubles_recorded :
    (unmarshal : Text → AlertSettings → AlertSettings) (pools : Result (List PoolStatus))
    (disks : Result (List DiskSmart)) (zpools : Result (List Pool)) (s : AlertSettings) (now : Time)
    (db : Db) {event_type target : Text}
    → db.faults ≡ []
    → load_alert_settings unmarshal db ≡ (s, db)
    → (s.email_enabled || s.webhook_enabled) ≡ true
    → 1 ≤ s.cooldown_hours
    → s.cooldown_hours ≤ 168
    → Trouble s pools disks zpools event_type target
    → let db' = (check_and_fire_alerts unmarshal pools disks zpools now db).0 in
      alert_fired_recently event_type target (cooldown s) now db' ≡ (true, db')
unfolding Leaves
troubles_recorded unmarshal pools disks zpools s now db {event_type} {target} quiet loaded on low
      high trouble =
    let (calm, recent) = rounds-Leaves s now low high pools disks zpools trouble db quiet in
    let (q, kept) =
      Recent-prune_alert_history event_type target (cooldown s) week now
        (rounds s pools disks zpools now db).0 calm (omega (arith, high)) recent in
    rw (check_runs unmarshal pools disks zpools s now db loaded on)
      (Recent-fired event_type target (cooldown s) now _ q kept)
