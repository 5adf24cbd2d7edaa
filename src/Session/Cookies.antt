-- ===== src/Session/Cookies.antt =====
-- The session cookie: what is signed is read back, and nothing else is.
use pfortainer.Base.{
  ℕ, true, Option, none, some, List, [], ◌∷◌, ◌++◌, ◌≡◌, ◌≢◌, inl, inr, refl, ap, ◌∙◌, arith, Text,
  text_eq, keep, All-append, Lacks, cut-append, append_assoc, Option-cases,
}
use native.Mathlib.Decide.{ℕ_discrete}
use pfortainer.Http.{Jar, cookie, set_cookie, valid_cookie_byte}
use pfortainer.Session.Signature.{
  IsCookieSafe, keep-IsCookieSafe, role_rank-IsCookieSafe, role_rank-Lacks_colon, sign-IsCookieSafe,
  verify-sign, verify_only, read_payload-colon, read_payload-some,
}
use pfortainer.Session.{
  SessionUser, role_rank, cookie_name, sign, verify, set_auth_cookie, read_payload, session_user,
}

not_Lacks_middle : (c : ℕ) (a b : Text) → ¬ Lacks c (a ++ c ∷ b)
not_Lacks_middle c [] b h = h.0 refl
not_Lacks_middle c (x ∷ a) b h = not_Lacks_middle c a b h.1

role_rank_colon : (b role : Text) → role_rank (b ++ b':' ∷ role) ≡ 0
role_rank_colon b role = elim (ℕ_discrete (role_rank (b ++ b':' ∷ role)) 0) [
  | yes e ↦ e
  | no n ↦ absurd (not_Lacks_middle b':' b role (role_rank-Lacks_colon (b ++ b':' ∷ role) n))
]

-- A payload whose user name has a colon is refused, whatever the role.
pub read_payload_colon_name :
    (a b role : Text) → Lacks b':' a → read_payload ((a ++ b':' ∷ b) ++ b':' ∷ role) ≡ none
unfolding read_payload
read_payload_colon_name a b role l =
    rw append_assoc (ground (arith, cut-append b':' a (b ++ b':' ∷ role) l, role_rank_colon b role))

payload_safe :
    (username role : Text)
    → IsCookieSafe username
    → IsCookieSafe role
    → IsCookieSafe (username ++ b':' ∷ role)
unfolding valid_cookie_byte
payload_safe username role hu hr =
    All-append (λ b. valid_cookie_byte b ≡ true) username (b':' ∷ role) hu (refl, hr)

module _ (mac : Text → Text → List ℕ) (secret : Text) where
  pub session_user_of_cookie :
      (jar : Jar) (payload : Text)
      → cookie cookie_name jar ≡ some (sign mac secret payload)
      → session_user mac secret jar ≡ read_payload payload
  unfolding session_user
  session_user_of_cookie jar payload e = ground (arith, verify-sign mac secret payload)

module _ (mac : Text → Text → List ℕ) (secret : Text) (jar : Jar) where
  stored :
      (username role : Text)
      → cookie cookie_name (set_cookie (set_auth_cookie mac secret username role) jar)
        ≡ some (keep valid_cookie_byte (sign mac secret (username ++ b':' ∷ role)))
  unfolding cookie set_cookie set_auth_cookie text_eq
  stored username role = refl

  -- The browser hands back the signed value whole if it has only cookie-safe bytes.
  session_user-set_cookie :
      (username role : Text)
      → IsCookieSafe username
      → IsCookieSafe role
      → session_user mac secret (set_cookie (set_auth_cookie mac secret username role) jar)
        ≡ read_payload (username ++ b':' ∷ role)
  session_user-set_cookie username role hu hr =
      let payload = username ++ b':' ∷ role in
      let safe = payload_safe username role hu hr in
      session_user_of_cookie mac secret (set_cookie (set_auth_cookie mac secret username role) jar)
        payload
        (stored username role
          ∙ ap some (keep-IsCookieSafe _ (sign-IsCookieSafe mac secret payload safe)))

  -- After setAuthCookie for a user name that is not empty, has no colon and only bytes that cookies
  -- carry, and a role that has a rank, the next request of the browser has the session user of that
  -- name and role.
  pub login_round_trip :
      (username role : Text)
      → IsCookieSafe username
      → Lacks b':' username
      → username ≢ []
      → role_rank role ≢ 0
      → session_user mac secret (set_cookie (set_auth_cookie mac secret username role) jar)
        ≡ some (record { username = username; role = role })
  login_round_trip username role safe l n r =
      session_user-set_cookie username role safe (role_rank-IsCookieSafe role r)
      ∙ read_payload-colon username role l n r

  -- After setAuthCookie for a user name with a colon and only bytes that cookies carry, and a role
  -- that has a rank, the next request of the browser has no session user.
  pub colon_name_locked_out :
      (a b role : Text)
      → IsCookieSafe (a ++ b':' ∷ b)
      → Lacks b':' a
      → role_rank role ≢ 0
      → session_user mac secret (set_cookie (set_auth_cookie mac secret (a ++ b':' ∷ b) role) jar)
        ≡ none
  colon_name_locked_out a b role safe l r =
      session_user-set_cookie (a ++ b':' ∷ b) role safe (role_rank-IsCookieSafe role r)
      ∙ read_payload_colon_name a b role l

  accepted :
      (v p : Text) {u : SessionUser}
      → cookie cookie_name jar ≡ some v
      → (verify mac secret v).0 ≡ p
      → session_user mac secret jar ≡ some u
      → (Option.some v ≡ some (sign mac secret (u.username ++ b':' ∷ u.role)))
        × (u.username ≢ [])
        × (role_rank u.role ≢ 0)
  unfolding session_user
  accepted v p {u} e ep h = ground (arith, verify_only mac secret v p, read_payload-some p u)

  -- If a request has a session user, then the session cookie is the payload `username:role` of that
  -- user signed with the secret, the name is not empty, and the role has a rank.
  pub session_user_signed :
      (u : SessionUser)
      → session_user mac secret jar ≡ some u
      → (cookie cookie_name jar ≡ some (sign mac secret (u.username ++ b':' ∷ u.role)))
        × (u.username ≢ [])
        × (role_rank u.role ≢ 0)
  unfolding session_user
  session_user_signed u h = elim (Option-cases (cookie cookie_name jar)) [
    | inl e ↦ ground arith
    | inr (v, e) ↦ rw e (accepted v (verify mac secret v).0 e refl h)
  ]
