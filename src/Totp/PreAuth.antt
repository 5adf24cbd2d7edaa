-- ===== src/Totp/PreAuth.antt =====
-- The pre-auth cookie: who it names and until when, and that it is no session.
use pfortainer.Base.{
  ℕ, ◌+◌, ◌^◌, ◌<◌, ◌≡◌, refl, ap, ◌∙◌, ◌≢◌, inl, inr, true, none, some, List, [], ◌∷◌, ◌++◌,
  append_assoc, arith, Text, text_eq, split, hex, decimal, text_eq_refl, Lacks, Lacks-append,
  split_first, cut-append, cut-Lacks, keep, All-append, ltb, if◌then◌else◌,
}
use native.Mathlib.Decide.{ℕ_discrete}
use pfortainer.Session.Cookies.{session_user_of_cookie}
use pfortainer.Http.{Jar, cookie, set_cookie, valid_cookie_byte}
use pfortainer.Session.{cookie_name, session_user, sign, read_payload, role_rank}
use pfortainer.Session.Signature.{IsCookieSafe, keep-IsCookieSafe, hex-IsCookieSafe, role-ind}
use pfortainer.Store.{Time, unix}
use pfortainer.Totp.{
  pre_auth_cookie_name, set_pre_auth_cookie, check_parts, get_pre_auth_user, parse_int,
}
use pfortainer.Totp.Decimal.{parse_int-decimal, decimal-Lacks, decimal-IsCookieSafe}

split-Lacks : (c : ℕ) (a : Text) → Lacks c a → split a c ≡ a ∷ []
unfolding split
split-Lacks c [] h = refl
split-Lacks c (x ∷ a) h = ground (arith, split-Lacks c a h.1, h.0)

split-append : (c : ℕ) (a b : Text) → Lacks c a → split (a ++ c ∷ b) c ≡ a ∷ split b c
unfolding split
split-append c [] b h = ground arith
split-append c (x ∷ a) b h = ground (arith, split-append c a b h.1, h.0)

split_three :
    (c : ℕ) (u e s : Text)
    → Lacks c u
    → Lacks c e
    → Lacks c s
    → split ((u ++ c ∷ e) ++ c ∷ s) c ≡ u ∷ e ∷ s ∷ []
split_three c u e s hu he hs =
    rw (append_assoc)
      (rw (split-append c u (e ++ c ∷ s) hu, split-append c e s he, split-Lacks c s hs) refl)

hex-Lacks_bar : (bs : List ℕ) → Lacks b'|' (hex bs)
unfolding hex
hex-Lacks_bar [] = tt
hex-Lacks_bar (b ∷ bs) = (ground arith, (ground arith, hex-Lacks_bar bs))

role_rank-Lacks_bar : (role : Text) → role_rank role ≢ 0 → Lacks b'|' role
role_rank-Lacks_bar = role-ind (Lacks b'|') (ground arith) (ground arith) (ground arith)

not_Lacks_middle : (c : ℕ) (a b : Text) → ¬ Lacks c (a ++ c ∷ b)
not_Lacks_middle c [] b h = h.0 refl
not_Lacks_middle c (x ∷ a) b h = not_Lacks_middle c a b h.1

module _ (mac : Text → Text → List ℕ) (secret : Text) where
  three_parts :
      (now : Time) (u e : Text) (n : ℕ)
      → parse_int e ≡ some n
      → check_parts mac secret now (u ∷ e ∷ hex (mac secret (u ++ b'|' ∷ e)) ∷ [])
        ≡ (if ltb n (unix now) then none else some u)
  three_parts now u e n h = ground (arith, h, text_eq_refl (hex (mac secret (u ++ b'|' ∷ e))))

  stored :
      (jar : Jar) (t : Time) (username : Text)
      → cookie pre_auth_cookie_name (set_cookie (set_pre_auth_cookie mac secret t username) jar)
        ≡ some (
            keep valid_cookie_byte (
              (username ++ b'|' ∷ decimal (unix (t + 300000000000)))
              ++ b'|' ∷ hex (mac secret (username ++ b'|' ∷ decimal (unix (t + 300000000000))))))
  unfolding cookie set_cookie set_pre_auth_cookie text_eq
  stored jar t username = refl

  value-safe :
      (username expiry : Text) (sum : List ℕ)
      → IsCookieSafe username
      → IsCookieSafe expiry
      → IsCookieSafe ((username ++ b'|' ∷ expiry) ++ b'|' ∷ hex sum)
  unfolding valid_cookie_byte
  value-safe username expiry sum hu he =
      All-append (λ b. valid_cookie_byte b ≡ true) (username ++ b'|' ∷ expiry) (b'|' ∷ hex sum)
        (All-append (λ b. valid_cookie_byte b ≡ true) username (b'|' ∷ expiry) hu (refl, he))
        (refl, hex-IsCookieSafe sum)

  user_of_cookie :
      (jar : Jar) (now : Time) (value : Text)
      → cookie pre_auth_cookie_name jar ≡ some value
      → get_pre_auth_user mac secret now jar ≡ check_parts mac secret now (split value b'|')
  unfolding get_pre_auth_user
  user_of_cookie jar now value h = rw (get_pre_auth_user, h) refl

  -- For a user name of bytes that cookies carry, none of them a bar, and an expiry below 2^63, the
  -- pre-auth cookie that the browser hands back names the user up to the second of the expiry, five
  -- minutes after it was set, and nobody later.
  pub pre_auth_round_trip :
      (jar : Jar) (t now : Time) (username : Text)
      → IsCookieSafe username
      → Lacks b'|' username
      → unix (t + 300000000000) < 2 ^ 63
      → get_pre_auth_user mac secret now
          (set_cookie (set_pre_auth_cookie mac secret t username) jar)
        ≡ (if ltb (unix (t + 300000000000)) (unix now) then none else some username)
  pre_auth_round_trip jar t now username safe lacks small =
      let n = unix (t + 300000000000) in
      let sum = mac secret (username ++ b'|' ∷ decimal n) in
      user_of_cookie (set_cookie (set_pre_auth_cookie mac secret t username) jar) now _ (
        stored jar t username
        ∙ ap some (
            keep-IsCookieSafe _
              (value-safe username (decimal n) sum safe (decimal-IsCookieSafe n))))
      ∙ ap (check_parts mac secret now) (
          split_three b'|' username (decimal n) (hex sum) lacks (decimal-Lacks b'|' n (omega arith))
            (hex-Lacks_bar sum))
      ∙ three_parts now username (decimal n) n (parse_int-decimal n small)

-- A role with a bar in it has no rank.
role_rank_bar : (b role : Text) → role_rank (b ++ b'|' ∷ role) ≡ 0
role_rank_bar b role = elim (ℕ_discrete (role_rank (b ++ b'|' ∷ role)) 0) [
  | yes e ↦ e
  | no n ↦ absurd (not_Lacks_middle b'|' b role (role_rank-Lacks_bar (b ++ b'|' ∷ role) n))
]

bar_payload :
    (username expiry : Text) → Lacks b':' expiry → read_payload (username ++ b'|' ∷ expiry) ≡ none
unfolding read_payload
bar_payload username expiry l = elim (split_first b':' username) [
  | inl none_left ↦ ground (
    arith,
    cut-Lacks b':' (username ++ b'|' ∷ expiry)
        (Lacks-append b':' username (b'|' ∷ expiry) none_left (omega arith, l)),
  )
  | inr (a, b, e, la) ↦
      rw (e, append_assoc)
        (ground (arith, cut-append b':' a (b ++ b'|' ∷ expiry) la, role_rank_bar b expiry))
]

-- What the pre-auth cookie signs is never a session: if the session cookie is the payload of a pre-
-- auth cookie with its signature, the request has no session user, whatever the user's name.
pub pre_auth_is_no_session :
    (mac : Text → Text → List ℕ) (secret : Text) (jar : Jar) (t : Time) (username : Text)
    → cookie cookie_name jar
      ≡ some (sign mac secret (username ++ b'|' ∷ decimal (unix (t + 300000000000))))
    → session_user mac secret jar ≡ none
pre_auth_is_no_session mac secret jar t username h =
    session_user_of_cookie mac secret jar (username ++ b'|' ∷ decimal (unix (t + 300000000000))) h
    ∙ bar_payload username (decimal (unix (t + 300000000000)))
        (decimal-Lacks b':' (unix (t + 300000000000)) (omega arith))
