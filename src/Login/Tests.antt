-- ===== src/Login/Tests.antt =====
-- Logins of a user with a second factor.
use pfortainer.Base.{
  ◌+◌, ◌%◌, ◌≡◌, refl, true, false, none, some, [], ◌∷◌, Text, codes, text_eq, trim, ok, err,
  length,
}
use pfortainer.Http.{redirect}
use pfortainer.Session.{role_admin, set_auth_cookie}
use pfortainer.Store.{Time, Db, UserRow, empty_db}
use pfortainer.Store.Rows.{find}
use pfortainer.Store.Users.{External, named}
use pfortainer.Totp.{verify_totp, totp_code, code_at}
use pfortainer.Login.{Crypto, login, totp_verify}
use pfortainer.Login.Factor.{NoSession, password_alone_is_not_enough, wrong_code_gives-NoSession}
use pfortainer.Login.Weak.{query_failure_skips_code}

abbrev plain : External
plain = record {
  generate_from_password = λ salt password. ok password;
  compare_hash_and_password = text_eq;
  unique_failed = codes "UNIQUE constraint failed: users.username";
}

abbrev sums : Crypto
sums = record {
  sha256 = λ secret message. (length secret + length message) % 256 ∷ [];
  sha1 = λ key message. 1 ∷ 2 ∷ 3 ∷ [];
  base32 = λ s. err (codes "illegal base32 data");
}

abbrev ann : UserRow
ann = record {
  id = 1;
  username = codes "ann";
  password_hash = codes "secret";
  role = role_admin;
  created_at = 0;
  totp_secret = codes "ABC";
  totp_enabled = 1;
}

abbrev with_ann : Db
with_ann = record empty_db { users = ann ∷ [] }

abbrev now : Time
now = 1700000000000000000

ann_trimmed : find (named (trim (codes " ann"))) with_ann.users ≡ some ann
unfolding find text_eq trim
ann_trimmed = refl

ann_found : find (named (codes "ann")) with_ann.users ≡ some ann
unfolding find text_eq
ann_found = refl

password_alone_is_not_enough_example :
    NoSession (login sums (codes "k") plain now (codes " ann") (codes "secret") with_ann).1
password_alone_is_not_enough_example =
    password_alone_is_not_enough sums (codes "k") plain now (codes " ann") (codes "secret") with_ann
      ann refl ann_trimmed refl

-- No secret decodes here, so that no code is right.
no_code : (secret input : Text) → verify_totp sums.sha1 sums.base32 now secret input ≡ false
unfolding verify_totp totp_code code_at
no_code secret input = refl

wrong_code_gives-NoSession_example :
    NoSession (totp_verify sums (codes "k") now [] (codes "123456") with_ann).1
wrong_code_gives-NoSession_example =
    wrong_code_gives-NoSession sums (codes "k") now [] (codes "123456") with_ann
      (λ username r e found. no_code r.totp_secret (trim (codes "123456")))

abbrev broken : Db
broken = record with_ann { faults = none ∷ some (codes "database is locked") ∷ [] }

ann_broken : find (named (trim (codes "ann"))) broken.users ≡ some ann
unfolding find text_eq trim
ann_broken = refl

secret_right : text_eq (codes "secret") (codes "secret") ≡ true
unfolding text_eq
secret_right = refl

query_failure_skips_code_example :
    (login sums (codes "k") plain now (codes "ann") (codes "secret") broken).1 ≡ (
      redirect 303 (codes "/"),
      set_auth_cookie sums.sha256 (codes "k") (codes "ann") role_admin ∷ [],
    )
query_failure_skips_code_example =
    query_failure_skips_code sums (codes "k") plain now (codes "ann") (codes "secret")
      (codes "database is locked") broken ann refl ann_broken secret_right
