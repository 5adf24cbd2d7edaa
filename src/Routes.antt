-- ===== src/Routes.antt =====
-- main.go: the role middleware and the table of routes.
-- A page handler is a parameter: what it does to the program's state and what it answers.
pub mod Guarded
mod Tests
use pfortainer.Base.{
  ℕ, Bool, true, false, not, ◌||◌, Option, none, some, List, [], ◌∷◌, Text, String, codes,
  if◌then◌else◌,
}
use pfortainer.Http.{Jar, Response, redirect, page}
use pfortainer.Session.{
  SessionUser, role_viewer, role_operator, role_admin, role_at_least, session_user,
}

-- The middleware of a route: none, or requireRole of a role.
pub data Tier : Type 0 where
  anyone auth auth_op auth_adm : Tier

pub data Method : Type 0 where
  get post : Method

pub record Route : Type 0 where
  pub method : Method
  pub pattern : Text
  pub tier : Tier

-- requireRole(minRole, next), for the jar that the request carries.
unfoldable pub require_role {ℓ} :
    {S : Type ℓ}
    → (Text → Text → List ℕ)
    → Text
    → Text
    → (SessionUser → S → S × Response)
    → Jar
    → S
    → S × Response
require_role mac secret min_role next jar s = elim (session_user mac secret jar) [
  | none ↦ (s, redirect 302 (codes "/login"))
  | some u ↦ if not (role_at_least u.role min_role) then (s, page 403 (codes "error")) else next u s
]

abbrev pub min_role : Tier → Text
min_role anyone = []
min_role auth = role_viewer
min_role auth_op = role_operator
min_role auth_adm = role_admin

-- What the handler of an open route sees: no session user in the request's context.
abbrev pub no_user : SessionUser
no_user = record { username = []; role = [] }

module _ {ℓ} {S : Type ℓ} (mac : Text → Text → List ℕ) (secret : Text)
    (handler : Route → SessionUser → S → S × Response) where
  -- The chain of auth, authOp or authAdm in front of the route's handler.
  unfoldable pub wrap : Tier → Route → Jar → S → S × Response
  wrap anyone r jar s = handler r no_user s
  wrap tier r jar s = require_role mac secret (min_role tier) (handler r) jar s

  unfoldable pub serve : Route → Jar → S → S × Response
  unfolding wrap
  serve r = wrap r.tier r

abbrev route : Method → Tier → String → Route
route m t p = record { method = m; pattern = codes p; tier = t }

-- The mux of main(), in its order.
abbrev pub routes : List Route
routes =
    route get anyone "/login"
    ∷ route post anyone "/login"
    ∷ route get anyone "/login/totp"
    ∷ route post anyone "/login/totp"
    ∷ route get anyone "/logout"
    ∷ route get auth "/profile"
    ∷ route post auth "/profile/2fa/begin"
    ∷ route post auth "/profile/2fa/enable"
    ∷ route post auth "/profile/2fa/disable"
    ∷ route get auth "/{$}"
    ∷ route get auth "/containers"
    ∷ route get auth "/containers/new"
    ∷ route get auth "/containers/{id}"
    ∷ route get auth "/images"
    ∷ route get auth "/images/{id}"
    ∷ route get auth "/system"
    ∷ route get auth "/api/system/stats"
    ∷ route get auth "/storage"
    ∷ route get auth "/filesystem"
    ∷ route get auth "/files"
    ∷ route get auth "/api/files/list"
    ∷ route get auth "/files/edit"
    ∷ route get auth "/api/files/download"
    ∷ route get auth "/services"
    ∷ route get auth "/metrics"
    ∷ route get auth "/api/metrics/data"
    ∷ route post auth_op "/containers/{id}/{action}"
    ∷ route post auth_op "/api/containers/build"
    ∷ route post auth_op "/api/compose/up"
    ∷ route post auth_op "/images/{id}/{action}"
    ∷ route post auth_op "/api/filesystem/create"
    ∷ route post auth_op "/api/filesystem/delete"
    ∷ route post auth_op "/api/files/upload"
    ∷ route post auth_op "/api/files/mkdir"
    ∷ route post auth_op "/api/files/create"
    ∷ route post auth_op "/api/files/delete"
    ∷ route post auth_op "/api/files/rename"
    ∷ route post auth_op "/api/files/chmod"
    ∷ route post auth_op "/api/files/save"
    ∷ route post auth_op "/api/files/clip"
    ∷ route post auth_op "/api/files/paste"
    ∷ route get auth "/localusers"
    ∷ route post auth_op "/localusers"
    ∷ route post auth_op "/localusers/{username}/delete"
    ∷ route post auth_op "/localusers/{username}/smbpasswd"
    ∷ route post auth_op "/localgroups"
    ∷ route post auth_op "/localgroups/{name}/delete"
    ∷ route post auth_op "/localgroups/{name}/member"
    ∷ route get auth "/shares"
    ∷ route post auth_op "/shares"
    ∷ route post auth_op "/shares/{name}/delete"
    ∷ route post auth_op "/shares/reload"
    ∷ route post auth_op "/shares/setup"
    ∷ route post auth_op "/nfs/export"
    ∷ route post auth_op "/nfs/export/{name}/delete"
    ∷ route post auth_op "/nfs/reload"
    ∷ route post auth_op "/api/smart/test"
    ∷ route get auth "/network"
    ∷ route get auth "/catalog"
    ∷ route post auth_op "/catalog/{id}/install"
    ∷ route post auth_op "/catalog/{id}/remove"
    ∷ route get auth "/diagnostics"
    ∷ route get auth "/api/diag/local-log"
    ∷ route get auth "/api/diag/host-log"
    ∷ route get auth "/api/diag/cmd"
    ∷ route get auth "/replications"
    ∷ route post auth_op "/replications"
    ∷ route post auth_op "/replications/{id}/delete"
    ∷ route post auth_op "/replications/{id}/toggle"
    ∷ route post auth_op "/replications/{id}/run"
    ∷ route get auth "/alerts"
    ∷ route post auth_op "/alerts"
    ∷ route post auth_op "/alerts/test"
    ∷ route get auth "/snapshots"
    ∷ route post auth_op "/api/snapshots/create"
    ∷ route post auth_op "/api/snapshots/delete"
    ∷ route post auth_op "/api/snapshots/rollback"
    ∷ route post auth_op "/api/snapshots/clone"
    ∷ route get auth "/schedules"
    ∷ route post auth_op "/schedules"
    ∷ route post auth_op "/schedules/{id}/toggle"
    ∷ route post auth_op "/schedules/{id}/delete"
    ∷ route post auth_op "/schedules/{id}/run"
    ∷ route get auth_adm "/admin/users"
    ∷ route post auth_adm "/admin/users"
    ∷ route post auth_adm "/admin/users/{username}/role"
    ∷ route post auth_adm "/admin/users/{username}/password"
    ∷ route post auth_adm "/admin/users/{username}/delete"
    ∷ []
