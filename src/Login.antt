-- ===== src/Login.antt =====
-- handlers.go: login with a password and a one-time code, logout, and the user's own second factor.
-- A handler returns its answer and the cookies that it sets, in order. A form parses always, and a
-- field that is missing is the empty text; the text of a page is left out.
pub mod Factor
pub mod Weak
mod Tests
use pfortainer.Base.{
  ℕ, Bool, false, not, ◌||◌, Option, none, some, List, [], ◌∷◌, Text, codes, trim, Result, ok, err,
  if◌then◌else◌,
}
use pfortainer.Http.{Cookie, Jar, Response, redirect, http_error, page, aborted}
use pfortainer.Session.{SessionUser, set_auth_cookie, clear_auth_cookie}
use pfortainer.Store.{Time, Db}
use pfortainer.Store.Users.{
  External, DbUser, verify_password, get_user, get_user_totp, set_totp_secret, enable_totp,
  disable_totp,
}
use pfortainer.Totp.{verify_totp, set_pre_auth_cookie, get_pre_auth_user, clear_pre_auth_cookie}

abbrev pub Reply : Type 0
Reply = Response × List Cookie

-- What the program calls of package crypto: the sums of HMAC-SHA256 and HMAC-SHA1, and base32.
pub record Crypto : Type 0 where
  pub sha256 : (secret message : Text) → List ℕ
  pub sha1 : (key message : List ℕ) → List ℕ
  pub base32 : Text → Result (List ℕ)

-- `_, totpEnabled, _ := GetUserTOTP(username)`: false on an error.
abbrev pub enabled_of : Result (Text × Bool) → Bool
enabled_of (ok (secret, enabled)) = enabled
enabled_of (err e) = false

abbrev secret_of : Result (Text × Bool) → Text
secret_of (ok (secret, enabled)) = secret
secret_of (err e) = []

abbrev pub begun : Result (Unit {0}) × Db → Db × Reply
begun (ok done, db) = (db, (page 200 (codes "profile"), []))
begun (err e, db) = (db, (http_error 500 (codes "db error"), []))

-- The user's own second factor. `fresh` is the secret that generateTOTPSecret draws.
unfoldable pub totp_setup_begin : SessionUser → Text → Db → Db × Reply
unfolding set_totp_secret
totp_setup_begin u fresh db = begun (set_totp_secret u.username fresh db)

abbrev confirmed : SessionUser → Result (Unit {0}) × Db → Db × Reply
confirmed u (err e, db) = (db, (http_error 500 (codes "db error"), []))
confirmed u (ok done, db) =
    ((enable_totp u.username db).1, (redirect 303 (codes "/profile?success=2FA가+활성화되었습니다."), []))

module _ (c : Crypto) (session_secret : Text) where
  -- The code belongs to the stored secret; an error reads as a wrong code.
  abbrev code_matches : Time → Result (Text × Bool) → Text → Bool
  code_matches now (ok (secret, enabled)) code = verify_totp c.sha1 c.base32 now secret code
  code_matches now (err e) code = false

  -- After the password: the second step, or the session.
  abbrev pub logged_in : Time → Text → DbUser → Bool → Reply
  logged_in now username user totp_enabled =
      if totp_enabled
      then (
        redirect 303 (codes "/login/totp"),
        set_pre_auth_cookie c.sha256 session_secret now username ∷ [],
      )
      else (
        redirect 303 (codes "/"),
        set_auth_cookie c.sha256 session_secret user.username user.role ∷ [],
      )

  abbrev pub after_password : Time → Text → Result (Option DbUser) × Db → Db × Reply
  after_password now username (err e, db) = (db, (http_error 500 (codes "internal error"), []))
  after_password now username (ok none, db) = (db, (page 401 (codes "login"), []))
  after_password now username (ok (some user), db) =
      let (r, db') = get_user_totp username db in (db', logged_in now username user (enabled_of r))

  unfoldable pub login : External → Time → Text → Text → Db → Db × Reply
  unfolding verify_password get_user_totp trim
  login x now form_username pw db =
      let username = trim form_username in
      after_password now username (verify_password x username pw db)

  pub totp_page : Time → Jar → Reply
  totp_page now jar = elim (get_pre_auth_user c.sha256 session_secret now jar) [
    | none ↦ (redirect 302 (codes "/login"), [])
    | some username ↦ (page 200 (codes "login_totp"), [])
  ]

  -- The session after the code; `user.Role` panics where GetUser returned no user.
  abbrev pub session_of : Text → Result (Option DbUser) → Reply
  session_of username (ok (some user)) = (
    redirect 303 (codes "/"),
    clear_pre_auth_cookie ∷ set_auth_cookie c.sha256 session_secret username user.role ∷ [],
  )
  session_of username _ = (aborted, clear_pre_auth_cookie ∷ [])

  abbrev pub after_code : Text → Bool → Db → Db × Reply
  after_code username matches db =
      if not matches
      then (db, (page 401 (codes "login_totp"), []))
      else let (r, db') = get_user username db in (db', session_of username r)

  abbrev pub check_code : Time → Text → Text → Db → Db × Reply
  check_code now username code db =
      let (r, db') = get_user_totp username db in after_code username (code_matches now r code) db'

  unfoldable pub totp_verify : Time → Jar → Text → Db → Db × Reply
  unfolding get_user get_user_totp verify_totp get_pre_auth_user trim
  totp_verify now jar form_code db = elim (get_pre_auth_user c.sha256 session_secret now jar) [
    | none ↦ (db, (redirect 302 (codes "/login"), []))
    | some username ↦ check_code now username (trim form_code) db
  ]

  unfoldable pub totp_setup_confirm : SessionUser → Time → Text → Text → Db → Db × Reply
  unfolding set_totp_secret enable_totp verify_totp trim
  totp_setup_confirm u now secret form_code db =
      if not (verify_totp c.sha1 c.base32 now secret (trim form_code))
      then (db, (page 200 (codes "profile"), []))
      else confirmed u (set_totp_secret u.username secret db)

  unfoldable pub totp_disable : SessionUser → Time → Text → Db → Db × Reply
  unfolding disable_totp get_user_totp verify_totp trim
  totp_disable u now form_code db =
      let (r, db') = get_user_totp u.username db in
      if not (enabled_of r) || not (verify_totp c.sha1 c.base32 now (secret_of r) (trim form_code))
      then (db', (page 200 (codes "profile"), []))
      else (
        (disable_totp u.username db').1,
        (redirect 303 (codes "/profile?success=2FA가+비활성화되었습니다."), []),
      )

pub logout : Reply
logout = (redirect 302 (codes "/login"), clear_auth_cookie ∷ [])
