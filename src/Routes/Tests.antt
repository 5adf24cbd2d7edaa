-- ===== src/Routes/Tests.antt =====
-- The middleware on concrete requests; the state counts the calls of handlers.
use pfortainer.Base.{
  ℕ, suc, ◌+◌, ◌*◌, ◌%◌, ◌≡◌, refl, false, some, List, [], ◌∷◌, Memᴰ, arith, Text, codes, text_eq,
  last_index, cut, elem_text, hex, length, get_elem?-Mem,
}
use pfortainer.Http.{Jar, Response, page}
use pfortainer.Session.{SessionUser, role_rank, session_user}
use pfortainer.Http.{cookie, set_cookie, valid_cookie_byte}
use pfortainer.Session.{set_auth_cookie, sign, role_viewer, verify, read_payload}
use pfortainer.Routes.{Route, post, auth_op, serve, routes, route}
use pfortainer.Routes.Guarded.{write_needs_operator, is_self_service, NoOperator}

abbrev checksum : Text → Text → List ℕ
checksum secret value = (length secret + 5 * length value) % 256 ∷ []

abbrev demo_secret : Text
demo_secret = codes "s"

abbrev counting : Route → SessionUser → ℕ → ℕ × Response
counting r u n = (suc n, page 200 r.pattern)

abbrev viewer_jar : Jar
viewer_jar = set_cookie (set_auth_cookie checksum demo_secret (codes "eve") role_viewer) []

abbrev build : Route
build = route post auth_op "/api/containers/build"

build-IsRoute : Memᴰ build routes
build-IsRoute = get_elem?-Mem routes 27 refl

viewer_session :
    session_user checksum demo_secret viewer_jar
    ≡ some (record { username = codes "eve"; role = role_viewer })
unfolding session_user cookie set_cookie set_auth_cookie sign verify read_payload role_rank text_eq
    hex last_index cut valid_cookie_byte
viewer_session = refl

viewer_rank : role_rank role_viewer ≡ 1
unfolding role_rank text_eq
viewer_rank = refl

viewer-NoOperator : NoOperator checksum demo_secret counting viewer_jar
viewer-NoOperator u h = ground (arith, viewer_session, viewer_rank)

build-guarded : is_self_service build ≡ false
unfolding elem_text text_eq
build-guarded = refl

write_needs_operator_example : (serve checksum demo_secret counting build viewer_jar 3).0 ≡ 3
write_needs_operator_example =
    write_needs_operator checksum demo_secret counting build viewer_jar 3 build-IsRoute refl
      build-guarded viewer-NoOperator
