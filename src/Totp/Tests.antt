-- ===== src/Totp/Tests.antt =====
-- Codes and pre-auth cookies with a checksum for the sums.
use pfortainer.Base.{
  ℕ, ◌+◌, ◌-◌, ◌*◌, ◌/◌, ◌%◌, ◌^◌, ◌≤◌, ◌<◌, ◌≡◌, refl, ◌↔◌, ◌⊎◌, true, none, some, List, [], ◌∷◌,
  ◌++◌, arith, Text, codes, text_eq, trim, decimal, Lacks, Result, ok, length, ltb, if◌then◌else◌,
}
use pfortainer.Http.{Jar, cookie, set_cookie, valid_cookie_byte}
use pfortainer.Session.{session_user, cookie_name, sign}
use pfortainer.Session.Signature.{IsCookieSafe}
use pfortainer.Store.{Time, unix}
use pfortainer.Totp.{code_at, verify_totp, set_pre_auth_cookie, get_pre_auth_user}
use pfortainer.Totp.Window.{accepted_iff_in_window}
use pfortainer.Totp.PreAuth.{pre_auth_round_trip, pre_auth_is_no_session}

abbrev checksum : Text → Text → List ℕ
checksum secret value = (length secret + 3 * length value) % 256 ∷ []

abbrev sum1 : List ℕ → List ℕ → List ℕ
sum1 key msg = 1 ∷ 2 ∷ 3 ∷ length key ∷ []

abbrev decode : Text → Result (List ℕ)
decode s = ok s

abbrev now : Time
now = 1700000000000000000

now_late : 30 ≤ unix now
unfolding unix
now_late = omega arith

accepted_iff_in_window_example :
    (verify_totp sum1 decode now (codes "ABC") (codes "000000") ≡ true) ↔ (
      (code_at sum1 decode (codes "ABC") (unix now / 30) ≡ ok (trim (codes "000000")))
      ⊎ ((code_at sum1 decode (codes "ABC") (unix now / 30 - 1) ≡ ok (trim (codes "000000")))
          ⊎ (code_at sum1 decode (codes "ABC") (unix now / 30 + 1) ≡ ok (trim (codes "000000")))))
accepted_iff_in_window_example =
    accepted_iff_in_window sum1 decode now (codes "ABC") (codes "000000") now_late

abbrev ann : Text
ann = codes "ann"

ann-IsSafe : IsCookieSafe ann
unfolding valid_cookie_byte
ann-IsSafe = (refl, (refl, (refl, tt)))

ann-Lacks_bar : Lacks b'|' ann
ann-Lacks_bar = (omega arith, (omega arith, (omega arith, tt)))

expiry_small : unix (now + 300000000000) < 2 ^ 63
unfolding unix
expiry_small = omega arith

pre_auth_round_trip_example :
    get_pre_auth_user checksum
      (codes "k")
      (now + 60000000000)
      (set_cookie (set_pre_auth_cookie checksum (codes "k") now ann) [])
    ≡ (if ltb (unix (now + 300000000000)) (unix (now + 60000000000)) then none else some ann)
pre_auth_round_trip_example =
    pre_auth_round_trip checksum (codes "k") [] now (now + 60000000000) ann ann-IsSafe ann-Lacks_bar
      expiry_small

-- The payload and the sum of the pre-auth cookie, put into the session cookie.
abbrev relabelled : Jar
relabelled =
    (
      cookie_name,
      sign checksum (codes "k") (codes "x:admin" ++ b'|' ∷ decimal (unix (now + 300000000000))),
    )
    ∷ []

relabelled-cookie :
    cookie cookie_name relabelled
    ≡ some
        (sign checksum (codes "k") (codes "x:admin" ++ b'|' ∷ decimal (unix (now + 300000000000))))
unfolding cookie text_eq
relabelled-cookie = refl

pre_auth_is_no_session_example : session_user checksum (codes "k") relabelled ≡ none
pre_auth_is_no_session_example =
    pre_auth_is_no_session checksum (codes "k") relabelled now (codes "x:admin") relabelled-cookie
