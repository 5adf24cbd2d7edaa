-- ===== src/Login/Weak.antt =====
-- Two ways around the second factor.
use pfortainer.Base.{
  ◌≡◌, refl, ap, ◌∙◌, true, false, none, some, [], ◌∷◌, Text, codes, trim, text_eq_refl, ok,
}
use pfortainer.Http.{redirect}
use pfortainer.Session.{SessionUser, set_auth_cookie}
use pfortainer.Store.{Time, Db, UserRow, statement}
use pfortainer.Store.Rows.{find, update_where}
use pfortainer.Store.Statement.{statement_runs}
use pfortainer.Store.Users.{
  External, named, check_password, verify_password, get_user_totp, set_totp_secret,
}
use pfortainer.Store.Users.Passwords.{find-update_where}
use pfortainer.Login.{Crypto, login, totp_setup_begin}
use pfortainer.Login.Factor.{get_user_totp_found}

answered :
    (username : Text) (x : External) (pw e : Text) (db : Db)
    → db.faults ≡ none ∷ some e ∷ []
    → verify_password x username pw db ≡ (
      ok (check_password x pw (find (named username) db.users)),
      record db { faults = some e ∷ [] },
    )
unfolding verify_password statement
answered username x pw e db h = rw h refl

module _ (c : Crypto) (session_secret : Text) where
  -- With the right password, and a driver that answers the first query and fails the second, login
  -- sets the session cookie at once, also where the user's second factor is enabled.
  pub query_failure_skips_code :
      (x : External) (now : Time) (form_username pw e : Text) (db : Db) (r : UserRow)
      → db.faults ≡ none ∷ some e ∷ []
      → find (named (trim form_username)) db.users ≡ some r
      → x.compare_hash_and_password r.password_hash pw ≡ true
      → (login c session_secret x now form_username pw db).1
        ≡ (redirect 303 (codes "/"), set_auth_cookie c.sha256 session_secret r.username r.role ∷ [])
  unfolding login get_user_totp statement
  query_failure_skips_code x now form_username pw e db r faults found right =
      rw (answered (trim form_username) x pw e db faults, found, right) refl

abbrev with_secret : Text → UserRow → UserRow
with_secret fresh r = record r { totp_secret = fresh; totp_enabled = 0 }

set_totp_secret_runs :
    (username fresh : Text) (db : Db)
    → db.faults ≡ []
    → set_totp_secret username fresh db
      ≡ (ok tt, record db { users = update_where (named username) (with_secret fresh) db.users })
unfolding set_totp_secret
set_totp_secret_runs username fresh db quiet = statement_runs _ db quiet

-- Without driver errors, POST /profile/2fa/begin stores the new secret and turns the user's second
-- factor off, and is given no code.
begin_turns_factor_off :
    (u : SessionUser) (fresh : Text) (db : Db) (r : UserRow)
    → db.faults ≡ []
    → find (named u.username) db.users ≡ some r
    → (get_user_totp u.username (totp_setup_begin u fresh db).0).0 ≡ ok (fresh, false)
unfolding totp_setup_begin
begin_turns_factor_off u fresh db r quiet found =
    rw (set_totp_secret_runs u.username fresh db quiet) (
      ap (λ p. p.0)
        (get_user_totp_found u.username _ (with_secret fresh r) quiet (
          find-update_where u.username u.username (with_secret fresh) db.users (λ q. refl)
          ∙ rw (found, text_eq_refl u.username) refl)))
