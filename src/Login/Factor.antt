-- ===== src/Login/Factor.antt =====
-- A user with a second factor gets no session without its code.
use pfortainer.Base.{
  ◌≡◌, refl, sym, ◌∙◌, ◌≢◌, inl, inr, Bool, true, false, Option, none, some, [], arith, Text,
  text_eq, trim, text_eq_iff, ok, All, ◌==◌, Bool-cases, Option-cases, Result-cases,
}
use pfortainer.Http.{Jar}
use pfortainer.Session.{cookie_name}
use pfortainer.Store.{Time, Db, UserRow}
use pfortainer.Store.Rows.{find}
use pfortainer.Store.Statement.{statement_runs, statement_ok}
use pfortainer.Store.Users.{
  External, named, check_password, verify_password, get_user_totp, totp_columns, totp_row,
}
use pfortainer.Totp.{verify_totp, set_pre_auth_cookie, get_pre_auth_user, pre_auth_cookie_name}
use pfortainer.Login.{Reply, Crypto, code_matches, after_password, login, check_code, totp_verify}

-- The answer sets no session cookie.
abbrev pub NoSession : Reply → Type 0
NoSession (answer, cookies) = All (λ c. c.name ≢ cookie_name) cookies

verify_password_runs :
    (x : External) (username password : Text) (db : Db)
    → db.faults ≡ []
    → verify_password x username password db
      ≡ (ok (check_password x password (find (named username) db.users)), db)
unfolding verify_password
verify_password_runs x username password db quiet = statement_runs _ db quiet

pub get_user_totp_found :
    (username : Text) (db : Db) (r : UserRow)
    → db.faults ≡ []
    → find (named username) db.users ≡ some r
    → get_user_totp username db ≡ (ok (r.totp_secret, r.totp_enabled == 1), db)
unfolding get_user_totp
get_user_totp_found username db r quiet found = statement_runs _ db quiet ∙ rw found refl

names_differ : pre_auth_cookie_name ≢ cookie_name
unfolding text_eq
names_differ h =
    let t : false ≡ true = (text_eq_iff pre_auth_cookie_name cookie_name).1 h in ground arith

module _ (c : Crypto) (session_secret : Text) where
  step_two :
      (x : External) (now : Time) (username pw : Text) (db : Db) (r : UserRow)
      → db.faults ≡ []
      → find (named username) db.users ≡ some r
      → r.totp_enabled ≡ 1
      → NoSession
          (after_password c session_secret now username
            (ok (check_password x pw (find (named username) db.users)), db)).1
  unfolding set_pre_auth_cookie
  step_two x now username pw db r quiet found on =
      rw found (elim (Bool-cases (x.compare_hash_and_password r.password_hash pw)) [
        | inr e ↦ rw e tt
        | inl e ↦
            rw (e, get_user_totp_found username db r quiet found, on) ((λ h. names_differ h), tt)
      ])

  -- Without driver errors, a login for a user whose row has the second factor enabled sets no
  -- session cookie, whatever the password.
  pub password_alone_is_not_enough :
      (x : External) (now : Time) (form_username pw : Text) (db : Db) (r : UserRow)
      → db.faults ≡ []
      → find (named (trim form_username)) db.users ≡ some r
      → r.totp_enabled ≡ 1
      → NoSession (login c session_secret x now form_username pw db).1
  unfolding login
  password_alone_is_not_enough x now form_username pw db r quiet found on =
      rw (verify_password_runs x (trim form_username) pw db quiet)
        (step_two x now (trim form_username) pw db r quiet found on)

-- What GetUserTOTP returned, if it returned something, is of the first row of the name.
get_user_totp_ok :
    (username : Text) (db : Db) (secret : Text) (on : Bool)
    → (get_user_totp username db).0 ≡ ok (secret, on)
    → (r : UserRow) × (find (named username) db.users ≡ some r) × (r.totp_secret ≡ secret)
unfolding get_user_totp
get_user_totp_ok username db secret on h =
    let (rest, e) = statement_ok (totp_columns username) db h in
    columns (find (named username) db.users) (rw e at h)
  where
    columns :
        (found : Option UserRow)
        → totp_row found ≡ ok (secret, on)
        → (r : UserRow) × (found ≡ some r) × (r.totp_secret ≡ secret)
    columns none k = absurd (ground arith)
    columns (some r) k = (r, refl, ground arith)

module _ (c : Crypto) (session_secret : Text) where
  no_match :
      (now : Time) (username code : Text) (db : Db)
      → ((r : UserRow)
          → find (named username) db.users ≡ some r
          → verify_totp c.sha1 c.base32 now r.totp_secret code ≡ false)
      → code_matches c session_secret now (get_user_totp username db).0 code ≡ false
  no_match now username code db wrong = elim (Result-cases (get_user_totp username db).0) [
    | inr (e, h) ↦ rw h refl
    | inl ((secret, on), h) ↦
        let (r, found, same) = get_user_totp_ok username db secret on h in
        rw (h, sym same) (wrong r found)
  ]

  -- Whatever the driver answers, POST /login/totp sets no session cookie if the code, without the
  -- spaces around it, is not accepted for the secret of the user whom the pre-auth cookie names; it
  -- sets none either if that cookie names nobody or a user without a row.
  pub wrong_code_gives-NoSession :
      (now : Time) (jar : Jar) (form_code : Text) (db : Db)
      → ((username : Text) (r : UserRow)
          → get_pre_auth_user c.sha256 session_secret now jar ≡ some username
          → find (named username) db.users ≡ some r
          → verify_totp c.sha1 c.base32 now r.totp_secret (trim form_code) ≡ false)
      → NoSession (totp_verify c session_secret now jar form_code db).1
  unfolding totp_verify
  wrong_code_gives-NoSession now jar form_code db wrong =
      elim (Option-cases (get_pre_auth_user c.sha256 session_secret now jar)) [
        | inl e ↦ rw (totp_verify, e) tt
        | inr (username, e) ↦
            rw (totp_verify, e)
              (refused username
                (no_match now username (trim form_code) db (λ r. wrong username r e)))
      ]
    where
      refused :
          (username : Text)
          → code_matches c session_secret now (get_user_totp username db).0 (trim form_code) ≡ false
          → NoSession (check_code c session_secret now username (trim form_code) db).1
      refused username e = rw e tt
