-- ===== src/Totp.antt =====
-- totp.go: one-time codes and the pre-auth cookie between the password and the code.
-- HMAC-SHA256, HMAC-SHA1 and base32 decoding are parameters. Times are at least 30 seconds after 1970.
pub mod Window
pub mod Decimal
pub mod PreAuth
mod Tests
use pfortainer.Base.{
  ℕ, zero, suc, ◌+◌, ◌-◌, ◌*◌, ◌/◌, ◌%◌, ◌^◌, Bool, false, not, ◌&&◌, ◌||◌, Option, none, some,
  List, [], ◌∷◌, ◌++◌, map, Text, codes, text_eq, split, trim, hex, decimal, Result, ok, err,
  length, get_elem?, ltb, leb, ◌==◌, if◌then◌else◌,
}
use pfortainer.Http.{Cookie, Jar, cookie}
use pfortainer.Store.{Time, unix}

abbrev upper_byte : ℕ → ℕ
upper_byte c = if leb b'a' c && leb c b'z' then c - 32 else c

-- strings.ToUpper, for bytes below 128; strings.Repeat of one byte.
abbrev to_upper : Text → Text
to_upper s = map upper_byte s

abbrev repeat : ℕ → ℕ → Text
repeat c zero = []
repeat c (suc n) = c ∷ repeat c n

-- The secret that is decoded: upper case, padded to a multiple of eight bytes.
abbrev padded : Text → Text
padded s = let pad = length s % 8 in if pad == 0 then s else s ++ repeat b'=' (8 - pad)

-- binary.BigEndian.PutUint64.
abbrev big_endian : ℕ → ℕ → List ℕ
big_endian zero n = []
big_endian (suc k) n = n / 2 ^ (8 * k) % 256 ∷ big_endian k n

-- A byte of the sum; HMAC-SHA1 has 20, so that none is looked for behind its end.
abbrev byte_at : List ℕ → ℕ → ℕ
byte_at h i = elim (get_elem? h i) [ none ↦ 0 | some b ↦ b ]

-- The dynamic truncation of the sum; its four parts have no bit in common.
abbrev truncated : List ℕ → ℕ
truncated h =
    let offset = byte_at h (length h - 1) % 16 in
    byte_at h offset % 128 * 2 ^ 24
    + byte_at h (offset + 1) * 2 ^ 16
    + byte_at h (offset + 2) * 2 ^ 8
    + byte_at h (offset + 3)

-- The verb %06d.
abbrev six_digits : ℕ → Text
six_digits n = let d = decimal n in repeat b'0' (6 - length d) ++ d

-- `err == nil && expected == strings.TrimSpace(input)`
abbrev pub is_code : Result Text → Text → Bool
is_code (ok expected) input = text_eq expected (trim input)
is_code (err e) input = false

module _ (sha1 : List ℕ → List ℕ → List ℕ) (base32 : Text → Result (List ℕ)) where
  -- The code of a time step.
  unfoldable pub code_at : Text → ℕ → Result Text
  unfolding trim decimal
  code_at secret counter = elim (base32 (padded (to_upper (trim secret)))) [
    | err e ↦ err e
    | ok key ↦ ok (six_digits (truncated (sha1 key (big_endian 8 counter)) % 1000000))
  ]

  unfoldable pub totp_code : Text → Time → Result Text
  unfolding code_at unix
  totp_code secret t = code_at secret (unix t / 30)

  -- The loop over the three durations, at the time `now`.
  unfoldable pub verify_totp : Time → Text → Text → Bool
  unfolding totp_code text_eq trim
  verify_totp now secret input =
      is_code (totp_code secret now) input
      || is_code (totp_code secret (now - 30000000000)) input
      || is_code (totp_code secret (now + 30000000000)) input

abbrev pub pre_auth_cookie_name : Text
pre_auth_cookie_name = codes "pfpreauth"

abbrev pub is_digit : ℕ → Bool
is_digit c = leb 48 c && leb c 57

unfoldable pub parse_digits : ℕ → Text → Option ℕ
parse_digits acc [] = some acc
parse_digits acc (c ∷ s) =
    let rest = parse_digits (acc * 10 + (c - 48)) s in if is_digit c then rest else none

abbrev pub strip_plus : Text → Text
strip_plus [] = []
strip_plus (c ∷ s) = if c == b'+' then s else c ∷ s

-- strconv.ParseInt(s, 10, 64), where its result is not negative: an expiry before 1970 is over, and
-- is refused like one that does not parse.
unfoldable pub parse_int : Text → Option ℕ
unfolding parse_digits text_eq
parse_int s =
    let digits = strip_plus s in
    if text_eq digits [] then none else elim (parse_digits 0 digits) [
      | none ↦ none
      | some n ↦ if ltb n (2 ^ 63) then some n else none
    ]

module _ (mac : Text → Text → List ℕ) (secret : Text) where
  unfoldable pub set_pre_auth_cookie : Time → Text → Cookie
  unfolding decimal unix hex
  set_pre_auth_cookie now username =
      let payload = username ++ b'|' ∷ decimal (unix (now + 300000000000)) in
      record {
        name = pre_auth_cookie_name;
        value = payload ++ b'|' ∷ hex (mac secret payload);
        max_age = some 300;
      }

  abbrev pub check_parts : Time → List Text → Option Text
  check_parts now (username ∷ expiry_str ∷ sig ∷ []) = elim (parse_int expiry_str) [
    | none ↦ none
    | some expiry ↦
        if ltb expiry (unix now)
        then none
        else if not (text_eq sig (hex (mac secret (username ++ b'|' ∷ expiry_str))))
        then none
        else some username
  ]
  check_parts now _ = none

  unfoldable pub get_pre_auth_user : Time → Jar → Option Text
  unfolding split parse_int unix text_eq hex
  get_pre_auth_user now jar = elim (cookie pre_auth_cookie_name jar) [
    | none ↦ none
    | some value ↦ check_parts now (split value b'|')
  ]

pub clear_pre_auth_cookie : Cookie
clear_pre_auth_cookie = record { name = pre_auth_cookie_name; value = []; max_age = none }
