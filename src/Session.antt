-- ===== src/Session.antt =====
-- session.go and the roles of configdb.go: the signed session cookie.
-- The HMAC-SHA256 sum is the parameter `mac` (secret, message): no theorem needs more of it.
pub mod Signature
pub mod Cookies
mod Tests
use pfortainer.Base.{
  ℕ, suc, ◌+◌, Bool, true, false, not, ◌&&◌, ◌||◌, Option, none, some, List, [], ◌∷◌, ◌++◌, Text,
  codes, text_eq, last_index, cut, hex, take, drop, leb, ◌==◌, if◌then◌else◌,
}
use pfortainer.Http.{Cookie, Jar, cookie}

abbrev pub role_viewer : Text
role_viewer = codes "viewer"

abbrev pub role_operator : Text
role_operator = codes "operator"

abbrev pub role_admin : Text
role_admin = codes "admin"

-- roleRank[role], and zero on a missing key.
unfoldable pub role_rank : Text → ℕ
role_rank role =
    if text_eq role role_viewer
    then 1
    else if text_eq role role_operator
    then 2
    else if text_eq role role_admin
    then 3
    else 0

-- `_, ok := roleRank[role]`
unfoldable pub role_exists : Text → Bool
role_exists role = text_eq role role_viewer || text_eq role role_operator || text_eq role role_admin

unfoldable pub role_at_least : Text → Text → Bool
role_at_least actual required = leb (role_rank required) (role_rank actual)

pub record SessionUser : Type 0 where
  pub username : Text
  pub role : Text

abbrev pub cookie_name : Text
cookie_name = codes "pfsession"

abbrev pub cookie_max_age : ℕ
cookie_max_age = 28800

pub clear_auth_cookie : Cookie
clear_auth_cookie = record { name = cookie_name; value = []; max_age = none }

-- The payload `username:role` of a verified cookie.
unfoldable pub read_payload : Text → Option SessionUser
read_payload payload = elim (cut payload b':') [
  | none ↦ none
  | some (username, role) ↦
      if text_eq username [] || role_rank role == 0
      then none
      else some (record { username = username; role = role })
]

module _ (mac : Text → Text → List ℕ) (secret : Text) where
  unfoldable pub sign : Text → Text
  sign value = value ++ b'.' ∷ hex (mac secret value)

  -- hmac.Equal compares the bytes.
  unfoldable pub verify : Text → Text × Bool
  verify signed = elim (last_index signed b'.') [
    | none ↦ ([], false)
    | some idx ↦
        let val = take idx signed in
        let sig = drop (idx + 1) signed in (val, text_eq sig (hex (mac secret val)))
  ]

  unfoldable pub set_auth_cookie : Text → Text → Cookie
  unfolding sign
  set_auth_cookie username role = record {
    name = cookie_name;
    value = sign (username ++ b':' ∷ role);
    max_age = some cookie_max_age;
  }

  unfoldable pub session_user : Jar → Option SessionUser
  unfolding verify read_payload
  session_user jar = elim (cookie cookie_name jar) [
    | none ↦ none
    | some value ↦
        let (payload, verified) = verify value in
        if not verified then none else read_payload payload
  ]

  pub is_authenticated : Jar → Bool
  is_authenticated jar = elim (session_user jar) [ none ↦ false | some u ↦ true ]
