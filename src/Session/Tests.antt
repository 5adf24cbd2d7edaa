-- ===== src/Session/Tests.antt =====
-- The session cookie on concrete names, with a checksum for the HMAC.
use pfortainer.Base.{
  ℕ, ◌+◌, ◌*◌, ◌%◌, ◌≡◌, refl, ◌≢◌, none, some, List, [], ◌∷◌, ◌++◌, arith, Text, codes, text_eq,
  last_index, hex, Lacks, length,
}
use pfortainer.Http.{Jar, set_cookie, valid_cookie_byte}
use pfortainer.Session.{
  role_operator, role_rank, set_auth_cookie, session_user, sign, cookie_name, verify, read_payload,
}
use pfortainer.Http.{cookie}
use pfortainer.Session.Signature.{IsCookieSafe}
use pfortainer.Session.Cookies.{login_round_trip, colon_name_locked_out, session_user_signed}

abbrev checksum : Text → Text → List ℕ
checksum secret value = (length secret + 7 * length value) % 256 ∷ []

abbrev demo_secret : Text
demo_secret = codes "k"

abbrev ann : Text
ann = codes "ann"

abbrev ann_jar : Jar
ann_jar = set_cookie (set_auth_cookie checksum demo_secret ann role_operator) []

ann-safe : IsCookieSafe ann
unfolding valid_cookie_byte
ann-safe = (refl, (refl, (refl, tt)))

ann-Lacks : Lacks b':' ann
ann-Lacks = (omega arith, (omega arith, (omega arith, tt)))

ann-nonempty : ann ≢ []
ann-nonempty = cc

operator-ranked : role_rank role_operator ≢ 0
unfolding role_rank text_eq
operator-ranked = omega arith

login_round_trip_example :
    session_user checksum demo_secret ann_jar
    ≡ some (record { username = ann; role = role_operator })
login_round_trip_example =
    login_round_trip checksum demo_secret [] ann role_operator ann-safe ann-Lacks ann-nonempty
      operator-ranked

colon_name-safe : IsCookieSafe (codes "a" ++ b':' ∷ codes "b")
unfolding valid_cookie_byte
colon_name-safe = (refl, (refl, (refl, tt)))

colon_name_locked_out_example :
    session_user checksum demo_secret
      (set_cookie (set_auth_cookie checksum demo_secret (codes "a:b") role_operator) [])
    ≡ none
colon_name_locked_out_example =
    colon_name_locked_out checksum demo_secret [] (codes "a") (codes "b") role_operator
      colon_name-safe (omega arith, tt) operator-ranked

session_user_signed_example :
    (cookie cookie_name ann_jar ≡ some (sign checksum demo_secret (ann ++ b':' ∷ role_operator)))
    × (ann ≢ [])
    × (role_rank role_operator ≢ 0)
session_user_signed_example =
    session_user_signed checksum demo_secret ann_jar
      (record { username = ann; role = role_operator }) login_round_trip_example

-- A cookie whose signature is not that of its payload is no session.
forged : session_user checksum demo_secret ((cookie_name, codes "ann:admin.00") ∷ []) ≡ none
unfolding session_user cookie verify text_eq read_payload hex last_index
forged = refl
