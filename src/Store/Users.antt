-- ===== src/Store/Users.antt =====
-- configdb.go: the users table. bcrypt is the parameter `bcrypt`; a new hash takes the salt drawn.
pub mod Admins
pub mod Passwords
pub mod Reach
pub mod Valid
mod Tests
use pfortainer.Base.{
  quote, ℕ, ◌≡◌, Bool, true, false, not, ◌&&◌, Option, none, some, List, [], ◌∷◌, ◌++◌, Text, codes,
  text_eq, Result, ok, err, ltb, ◌==◌, if◌then◌else◌, map,
}
use pfortainer.Session.{role_exists, role_admin}
use pfortainer.Store.{Time, unix, UserRow, Db, Sql, statement, and_then}
use pfortainer.Store.Rows.{find, update_where, delete_where, count_where, next_id}

-- What the program calls of other libraries: golang.org/x/crypto/bcrypt, and the text of the
-- driver's error on a second row with a UNIQUE value.
pub record External : Type 0 where
  pub generate_from_password : (salt : ℕ) → (password : Text) → Result Text
  pub compare_hash_and_password : (hash password : Text) → Bool
  pub unique_failed : Text

-- A hash that was generated from a password compares equal to it.
abbrev pub BcryptAccepts : External → Type 0
BcryptAccepts x =
    (salt : ℕ) (password hash : Text)
    → x.generate_from_password salt password ≡ ok hash
    → x.compare_hash_and_password hash password ≡ true

-- DBUser.
pub record DbUser : Type 0 where
  pub id : ℕ
  pub username : Text
  pub role : Text
  pub created_at : ℕ

abbrev pub to_user : UserRow → DbUser
to_user r = record { id = r.id; username = r.username; role = r.role; created_at = r.created_at }

abbrev pub named : Text → UserRow → Bool
named username r = text_eq r.username username

unfoldable pub list_users : Sql (List DbUser)
unfolding statement
list_users = statement λ db. (ok (map to_user db.users), db)

unfoldable pub get_user : Text → Sql (Option DbUser)
unfolding statement find
get_user username = statement λ db.
    (ok (elim (find (named username) db.users) [ none ↦ none | some r ↦ some (to_user r) ]), db)

-- An UPDATE or DELETE on one user name, with the check of RowsAffected.
abbrev affected : Text → ℕ → Result (Unit {0})
affected username n = if n == 0 then err (codes "user not found: " ++ username) else ok tt

unfoldable invalid_role : Text → Text
unfolding quote
invalid_role role = codes "invalid role: " ++ quote role

set_hash : Text → Text → Sql (Unit {0})
unfolding statement update_where count_where
set_hash username hash = statement λ db. (
  affected username (count_where (named username) db.users),
  record db {
    users = update_where (named username) (λ r. record r { password_hash = hash }) db.users;
  },
)

-- The columns of a new row; the TOTP columns have their defaults.
new_user : Text → Text → Text → Time → List UserRow → UserRow
unfolding next_id
new_user username hash role now rows = record {
  id = next_id (λ (r : UserRow). r.id) rows;
  username = username;
  password_hash = hash;
  role = role;
  created_at = unix now;
  totp_secret = [];
  totp_enabled = 0;
}

-- SELECT COUNT(*) FROM users.
count_users : Sql ℕ
unfolding statement count_where
count_users = statement λ db. (ok (count_where (λ _. true) db.users), db)

module _ (x : External) where
  abbrev pub check_password : Text → Option UserRow → Option DbUser
  check_password password none = none
  check_password password (some r) =
      if x.compare_hash_and_password r.password_hash password then some (to_user r) else none

  unfoldable pub verify_password : Text → Text → Sql (Option DbUser)
  unfolding statement find
  verify_password username password =
      statement λ db. (ok (check_password password (find (named username) db.users)), db)

  -- The INSERT: it fails where another row has the name.
  insert_row : UserRow → Sql (Unit {0})
  unfolding count_where
  insert_row r db =
      if count_where (named r.username) db.users == 0
      then (ok tt, record db { users = db.users ++ r ∷ [] })
      else (err x.unique_failed, db)

  insert_user : Text → Text → Text → Time → Sql (Unit {0})
  unfolding statement insert_row
  insert_user username hash role now =
      statement λ db. insert_row (new_user username hash role now db.users) db

  unfoldable pub create_user : ℕ → Time → Text → Text → Text → Sql (Unit {0})
  unfolding insert_user new_user invalid_role
  create_user salt now username password role db =
      if not (role_exists role)
      then (err (invalid_role role), db)
      else elim (x.generate_from_password salt password) [
        | err e ↦ (err e, db)
        | ok hash ↦ insert_user username hash role now db
      ]

  -- The admin user of the first launch, where no user was counted.
  first_admin : ℕ → Time → Text → ℕ → Sql (Unit {0})
  unfolding create_user
  first_admin salt now password count db =
      if ltb 0 count
      then (ok tt, db)
      else create_user salt now (codes "admin") password role_admin db

  unfoldable pub bootstrap_admin : ℕ → Time → Text → Sql (Unit {0})
  unfolding count_users first_admin
  bootstrap_admin salt now password db = and_then (count_users db) (first_admin salt now password)

  unfoldable pub update_password : ℕ → Text → Text → Sql (Unit {0})
  unfolding set_hash
  update_password salt username new_password db =
      elim (x.generate_from_password salt new_password) [
        | err e ↦ (err e, db)
        | ok hash ↦ set_hash username hash db
      ]

set_role : Text → Text → Sql (Unit {0})
unfolding statement update_where count_where
set_role username role = statement λ db. (
  affected username (count_where (named username) db.users),
  record db { users = update_where (named username) (λ r. record r { role = role }) db.users },
)

unfoldable pub update_role : Text → Text → Sql (Unit {0})
unfolding set_role invalid_role
update_role username role db =
    if not (role_exists role) then (err (invalid_role role), db) else set_role username role db

unfoldable pub delete_user : Text → Sql (Unit {0})
unfolding statement delete_where count_where
delete_user username = statement λ db. (
  affected username (count_where (named username) db.users),
  record db { users = delete_where (named username) db.users },
)

-- TOTP 2FA columns.
abbrev pub totp_row : Option UserRow → Result (Text × Bool)
totp_row none = err (codes "sql: no rows in result set")
totp_row (some r) = ok (r.totp_secret, r.totp_enabled == 1)

abbrev pub totp_columns : Text → Sql (Text × Bool)
totp_columns username db = (totp_row (find (named username) db.users), db)

unfoldable pub get_user_totp : Text → Sql (Text × Bool)
unfolding statement find
get_user_totp username = statement (totp_columns username)

abbrev write_totp : (UserRow → UserRow) → Text → Sql (Unit {0})
write_totp f username =
    statement λ db. (ok tt, record db { users = update_where (named username) f db.users })

unfoldable pub set_totp_secret : Text → Text → Sql (Unit {0})
unfolding statement update_where
set_totp_secret username secret =
    write_totp (λ r. record r { totp_secret = secret; totp_enabled = 0 }) username

unfoldable pub enable_totp : Text → Sql (Unit {0})
unfolding statement update_where
enable_totp = write_totp (λ r. record r { totp_enabled = 1 })

unfoldable pub disable_totp : Text → Sql (Unit {0})
unfolding statement update_where
disable_totp = write_totp (λ r. record r { totp_secret = []; totp_enabled = 0 })
