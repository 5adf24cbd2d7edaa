-- ===== src/Routes/Guarded.antt =====
-- No handler behind requireRole runs without a signed session of enough rank.
use pfortainer.Base.{
  ℕ, ◌≤◌, ◌<◌, Memᴰ, elem_text, all-All, All-mem, Bool, true, false, ◌||◌, some, List, [], ◌∷◌, ◌≡◌,
  inl, inr, refl, arith, Text, codes, text_eq, all, Option-cases,
}
use pfortainer.Http.{Jar, Response}
use pfortainer.Session.{
  SessionUser, role_operator, role_admin, role_at_least, role_rank, session_user,
}
use pfortainer.Routes.{
  Tier, anyone, auth_op, auth_adm, get, post, Route, require_role, wrap, serve, routes,
}

-- The POST routes that no operator role guards: the login, and the user's own second factor.
abbrev self_service : List Text
self_service =
    codes "/login"
    ∷ codes "/login/totp"
    ∷ codes "/profile/2fa/begin"
    ∷ codes "/profile/2fa/enable"
    ∷ codes "/profile/2fa/disable"
    ∷ []

abbrev pub is_self_service : Route → Bool
is_self_service r = elem_text r.pattern self_service

abbrev asks_operator : Tier → Bool
asks_operator auth_op = true
asks_operator auth_adm = true
asks_operator _ = false

abbrev asks_session : Tier → Bool
asks_session anyone = false
asks_session _ = true

abbrev write_is_guarded : Route → Bool
write_is_guarded r = elim r.method [ get ↦ true | post ↦ is_self_service r || asks_operator r.tier ]

all_writes_guarded : all write_is_guarded routes ≡ true
unfolding elem_text text_eq
all_writes_guarded = refl

rank_of_operator : role_rank role_operator ≡ 2
unfolding role_rank text_eq
rank_of_operator = refl

rank_of_admin : role_rank role_admin ≡ 3
unfolding role_rank text_eq
rank_of_admin = refl

module _ {ℓ} {S : Type ℓ} (mac : Text → Text → List ℕ) (secret : Text)
    (handler : Route → SessionUser → S → S × Response) where
  -- The request carries no session of an operator's rank.
  abbrev pub NoOperator : Jar → Type 0
  NoOperator jar = (u : SessionUser) → session_user mac secret jar ≡ some u → role_rank u.role < 2

  require_role_stops :
      (min : Text) (next : SessionUser → S → S × Response) (jar : Jar) (s : S)
      → 2 ≤ role_rank min
      → NoOperator jar
      → (require_role mac secret min next jar s).0 ≡ s
  unfolding require_role role_at_least
  require_role_stops min next jar s h no_op = elim (Option-cases (session_user mac secret jar)) [
    | inl e ↦ ground arith
    | inr (u, e) ↦ ground (arith, no_op u e)
  ]

  wrap_stops :
      (t : Tier) (r : Route) (jar : Jar) (s : S)
      → asks_operator t ≡ true
      → NoOperator jar
      → (wrap mac secret handler t r jar s).0 ≡ s
  unfolding wrap
  wrap_stops auth_op r jar s h no_op =
      require_role_stops role_operator (handler r) jar s (omega (arith, rank_of_operator)) no_op
  wrap_stops auth_adm r jar s h no_op =
      require_role_stops role_admin (handler r) jar s (omega (arith, rank_of_admin)) no_op
  wrap_stops _ r jar s h no_op = cc

  -- A request to a POST route of the table, other than the login and the routes of the user's own
  -- second factor, leaves the state as it was if it has no session of at least an operator's rank.
  pub write_needs_operator :
      (r : Route) (jar : Jar) (s : S)
      → Memᴰ r routes
      → r.method ≡ post
      → is_self_service r ≡ false
      → NoOperator jar
      → (serve mac secret handler r jar s).0 ≡ s
  unfolding serve
  write_needs_operator r jar s m p self no_op =
      let g =
        All-mem (λ q. write_is_guarded q ≡ true) routes
          (all-All write_is_guarded routes all_writes_guarded) m in
      wrap_stops r.tier r jar s (ground arith) no_op
