-- ===== src/Store/Alerts.antt =====
-- configdb.go: the key-value table `meta` and the history of alerts. Durations are in nanoseconds.
pub mod Laws
pub mod Meta
pub mod Recent
use pfortainer.Base.{
  ℕ, ◌+◌, ◌*◌, ◌^◌, Bool, false, ◌&&◌, Option, none, some, List, [], ◌∷◌, ◌++◌, Text, text_eq,
  Result, ok, err, ltb, leb, ◌==◌, if◌then◌else◌,
}
use pfortainer.Store.{Time, unix, MetaRow, AlertRow, Db, Sql, statement}
use pfortainer.Store.Rows.{find, update_where, delete_where, count_where, next_id}

abbrev pub meta_key : Text → MetaRow → Bool
meta_key key r = text_eq r.key key

abbrev value_of : Option MetaRow → Text
value_of none = []
value_of (some r) = r.value

unfoldable pub meta_get : Text → Sql Text
unfolding statement find
meta_get key = statement λ db. (ok (value_of (find (meta_key key) db.meta)), db)

-- INSERT … ON CONFLICT(key) DO UPDATE.
abbrev upsert : Text → Text → ℕ → List MetaRow → List MetaRow
upsert key value at rows =
    if count_where (meta_key key) rows == 0
    then rows ++ record { key = key; value = value; updated_at = at } ∷ []
    else update_where (meta_key key) (λ r. record r { value = value; updated_at = at }) rows

unfoldable pub meta_set : Text → Text → Time → Sql (Unit {0})
unfolding statement count_where update_where unix
meta_set key value now =
    statement λ db. (ok tt, record db { meta = upsert key value (unix now) db.meta })

-- fired_at > time.Now().Add(-cooldown).Unix(): an integer is greater than a number rounded down exactly
-- if it is greater than the number. A cooldown is an int64 in two's complement, so that one above
-- 2 ^ 63 is negative, and -(-2 ^ 63) is -2 ^ 63.
abbrev pub in_cooldown : ℕ → Time → ℕ → Bool
in_cooldown cooldown now fired_at =
    if leb cooldown (2 ^ 63)
    then ltb now (fired_at * 1000000000 + cooldown)
    else ltb (now + 2 ^ 64) (fired_at * 1000000000 + cooldown)

abbrev pub is_recent : Text → Text → ℕ → Time → AlertRow → Bool
is_recent event_type target cooldown now r =
    text_eq r.event_type event_type
    && text_eq r.target target
    && in_cooldown cooldown now r.fired_at

-- The count stays 0 on an error of the driver.
abbrev positive : Result ℕ → Bool
positive (ok n) = ltb 0 n
positive (err e) = false

abbrev count_alerts : (AlertRow → Bool) → Sql ℕ
count_alerts p = statement λ db. (ok (count_where p db.alert_history), db)

unfoldable pub alert_fired_recently : Text → Text → ℕ → Time → Db → Bool × Db
unfolding statement count_where
alert_fired_recently event_type target cooldown now db =
    let (n, db') = count_alerts (is_recent event_type target cooldown now) db in (positive n, db')

abbrev pub alert_row : Text → Text → Time → ℕ → AlertRow
alert_row event_type target now id = record {
  id = id;
  event_type = event_type;
  target = target;
  fired_at = unix now;
}

unfoldable pub record_alert : Text → Text → Time → Sql (Unit {0})
unfolding statement next_id unix
record_alert event_type target now = statement λ db. (
  ok tt,
  record db {
    alert_history =
        db.alert_history
        ++ alert_row event_type target now (next_id (λ (r : AlertRow). r.id) db.alert_history) ∷ [];
  },
)

-- fired_at < (now - older_than).Unix()
abbrev pub is_older : ℕ → Time → AlertRow → Bool
is_older older_than now r = leb ((r.fired_at + 1) * 1000000000 + older_than) now

unfoldable pub prune_alert_history : ℕ → Time → Db → Db
unfolding statement delete_where
prune_alert_history older_than now db =
    (statement {A = Unit {0}}
      (λ db. (
        ok tt,
        record db { alert_history = delete_where (is_older older_than now) db.alert_history },
      ))
      db).1
