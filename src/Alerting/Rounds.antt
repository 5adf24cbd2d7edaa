-- ===== src/Alerting/Rounds.antt =====
-- What a round of checkAndFireAlerts keeps in the database, and what it leaves there.
use mathlib.Core.Path.{subst}
use pfortainer.Base.{
  ◌≤◌, ◌≡◌, Bool, true, false, inl, inr, List, [], ◌∷◌, Memᴰ, arith, Text, Result, ok, err, ltb,
  Bool-cases,
}
use pfortainer.Store.{Time, unix, Db}
use pfortainer.Store.Rows.{count_where}
use pfortainer.Store.Alerts.{is_recent, record_alert}
use pfortainer.Store.Alerts.Laws.{alert_fired_recently_runs, record_alert_runs}
use pfortainer.Store.Alerts.Recent.{Recent, Recent-record_alert, recorded-Recent}
use pfortainer.Storage.{PoolStatus}
use pfortainer.Storage.Disks.{DiskSmart}
use pfortainer.Datasets.{Pool}
use pfortainer.Alerting.{AlertSettings, cooldown, fire_alert}
use pfortainer.Alerting.Check.{
  Round, skip, both, when, each, each_of, pool_round, disk_round, capacity_round,
}

-- With no error of the driver to come, the round leaves none, and a database of which P holds.
unfoldable pub Leaves : (Db → Type 0) → Round → Type 0
Leaves P f = (db : Db) → db.faults ≡ [] → ((f db).0.faults ≡ []) × P (f db).0

unfoldable pub Keeps : (Db → Type 0) → Round → Type 0
Keeps P f = (db : Db) → db.faults ≡ [] → P db → ((f db).0.faults ≡ []) × P (f db).0

module _ (P : Db → Type 0) where
  pub both-Keeps : (f g : Round) → Keeps P f → Keeps P g → Keeps P (both f g)
  unfolding Keeps both
  both-Keeps f g kf kg db quiet h = let (q, p) = kf db quiet h in kg (f db).0 q p

  pub when-Keeps : (b : Bool) (f : Round) → Keeps P f → Keeps P (when b f)
  unfolding Keeps when skip
  when-Keeps true f kf db quiet h = kf db quiet h
  when-Keeps false f kf db quiet h = (quiet, h)

  pub both-first : (f g : Round) → Leaves P f → Keeps P g → Leaves P (both f g)
  unfolding Keeps Leaves both
  both-first f g lf kg db quiet = let (q, p) = lf db quiet in kg (f db).0 q p

  each-Keeps :
      {A : Type 0} (f : A → Round) → ((x : A) → Keeps P (f x)) → (xs : List A) → Keeps P (each f xs)
  unfolding each Keeps skip
  each-Keeps f kf [] db quiet h = (quiet, h)
  each-Keeps f kf (x ∷ xs) db quiet h =
      both-Keeps (f x) (each f xs) (kf x) (each-Keeps f kf xs) db quiet h

  pub each_of-Keeps :
      {A : Type 0} (f : A → Round) (xs : Result (List A))
      → ((x : A) → Keeps P (f x))
      → Keeps P (each_of xs f)
  unfolding each_of skip Keeps
  each_of-Keeps f (ok xs) kf db quiet h = each-Keeps f kf xs db quiet h
  each_of-Keeps f (err e) kf db quiet h = (quiet, h)

  pub when-Leaves : (b : Bool) (f : Round) → b ≡ true → Leaves P f → Leaves P (when b f)
  unfolding when
  when-Leaves b f e lf = rw e lf

  pub both-last : (f g : Round) → Keeps (λ db. Unit {0}) f → Leaves P g → Leaves P (both f g)
  unfolding Keeps Leaves both
  both-last f g kf lg db quiet = let (q, p) = kf db quiet tt in lg (f db).0 q

  pub each-Leaves :
      {A : Type 0} (f : A → Round)
      → ((x : A) → Keeps (λ db. Unit {0}) (f x))
      → ((x : A) → Keeps P (f x))
      → (xs : List A) {x : A} → Memᴰ x xs
      → Leaves P (f x)
      → Leaves P (each f xs)
  unfolding each
  each-Leaves f quiets kf [] m lf = elim m [ ]
  each-Leaves f quiets kf (y ∷ xs) (Memᴰ.head e) lf =
      both-first (f y) (each f xs) (subst (λ z. Leaves P (f z)) e lf) (each-Keeps f kf xs)
  each-Leaves f quiets kf (y ∷ xs) (Memᴰ.tail m) lf =
      both-last (f y) (each f xs) (quiets y) (each-Leaves f quiets kf xs m lf)

-- A recorded alert keeps P.
abbrev pub Stable : (Db → Type 0) → Type 0
Stable P =
    (event_type target : Text) (now : Time) (db : Db)
    → db.faults ≡ []
    → P db
    → ((record_alert event_type target now db).1.faults ≡ [])
      × P (record_alert event_type target now db).1

pub Unit-Stable : Stable (λ db. Unit {0})
Unit-Stable event_type target now db quiet h =
    rw (record_alert_runs event_type target now db quiet) (quiet, tt)

module _ (s : AlertSettings) (now : Time) where
  pub Recent-Stable :
      (event_type target : Text) → Stable (Recent event_type target (cooldown s) now)
  Recent-Stable event_type target other at later db quiet h =
      Recent-record_alert event_type target other at (cooldown s) now later db quiet h

  pub fire_alert-Keeps :
      (P : Db → Type 0)
      → Stable P
      → (event_type target subject body : Text)
      → Keeps P (fire_alert s event_type target subject body now)
  unfolding fire_alert Keeps
  fire_alert-Keeps P stable event_type target subject body db quiet h =
      rw (alert_fired_recently_runs event_type target (cooldown s) now db quiet)
        (elim (Bool-cases
          (ltb 0 (count_where (is_recent event_type target (cooldown s) now) db.alert_history))) [
            | inl known ↦ rw known (quiet, h)
            | inr new ↦ rw new (stable event_type target now db quiet h)
          ])

  pub fire_alert-Leaves :
      (event_type target subject body : Text)
      → 1 ≤ s.cooldown_hours
      → s.cooldown_hours ≤ 168
      → Leaves
          (Recent event_type target (cooldown s) now)
          (fire_alert s event_type target subject body now)
  unfolding fire_alert unix Leaves
  fire_alert-Leaves event_type target subject body hours short db quiet =
      rw (alert_fired_recently_runs event_type target (cooldown s) now db quiet)
        (elim (Bool-cases
          (ltb 0 (count_where (is_recent event_type target (cooldown s) now) db.alert_history))) [
            | inl known ↦ rw known (quiet, ground (arith, known))
            | inr new ↦ rw new (
                recorded-Recent event_type target (cooldown s) now db quiet (omega (arith, short))
                  (omega (arith, hours, short)))
          ])

  module _ (P : Db → Type 0) (stable : Stable P) where
    pub pool_round-Keeps : (p : PoolStatus) → Keeps P (pool_round s now p)
    unfolding pool_round
    pool_round-Keeps p =
        both-Keeps P _ _ (when-Keeps P _ _ (fire_alert-Keeps P stable _ _ _ _))
          (when-Keeps P _ _ (fire_alert-Keeps P stable _ _ _ _))

    pub disk_round-Keeps : (d : DiskSmart) → Keeps P (disk_round s now d)
    unfolding disk_round
    disk_round-Keeps d = when-Keeps P _ _ (fire_alert-Keeps P stable _ _ _ _)

    pub capacity_round-Keeps : (p : Pool) → Keeps P (capacity_round s now p)
    unfolding capacity_round
    capacity_round-Keeps p = when-Keeps P _ _ (fire_alert-Keeps P stable _ _ _ _)
