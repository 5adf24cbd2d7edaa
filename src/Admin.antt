-- ===== src/Admin.antt =====
-- handlers.go: the admin pages that change users (/admin/users). A form value that is missing is
-- the empty text. The redirects carry their messages as code points.
pub mod Self
mod Tests
use pfortainer.Base.{
  ℕ, not, ◌&&◌, ◌||◌, [], ◌++◌, Text, codes, text_eq, trim, Result, ok, err, length, ltb,
  if◌then◌else◌,
}
use pfortainer.Http.{Response, redirect}
use pfortainer.Session.{SessionUser, role_admin}
use pfortainer.Store.{Time, Db}
use pfortainer.Store.Users.{External, create_user, update_role, update_password, delete_user}

abbrev users_page : Text → Response
users_page query = redirect 303 (codes "/admin/users" ++ query)

-- The redirect of a call's error, or of its success.
abbrev answer : Text → Result (Unit {0}) × Db → Db × Response
answer success (ok done, db) = (db, users_page (codes "?success=" ++ success))
answer success (err e, db) = (db, users_page (codes "?error=" ++ e))

-- The local closure `redirect` of adminUserCreate, for a creation that failed.
abbrev create_failed : Result (Unit {0}) → Result (Unit {0})
create_failed (ok done) = ok done
create_failed (err e) = err (codes "생성 실패: " ++ e)

module _ (x : External) where
  pub admin_user_create : ℕ → Time → Text → Text → Text → Db → Db × Response
  unfolding trim text_eq
  admin_user_create salt now form_username password role db =
      let username = trim form_username in
      if text_eq username [] || text_eq password []
      then (db, users_page (codes "?error=사용자명과 비밀번호를 입력하세요."))
      else if ltb (length password) 8
      then (db, users_page (codes "?error=비밀번호는 8자 이상이어야 합니다."))
      else let (r, db') = create_user x salt now username password role db in
        answer (username ++ codes " 생성 완료") (create_failed r, db')

  unfoldable pub admin_user_update_password : ℕ → Text → Text → Db → Db × Response
  admin_user_update_password salt username pw db =
      if ltb (length pw) 8
      then (db, users_page (codes "?error=비밀번호는+8자+이상이어야+합니다"))
      else answer (codes "비밀번호+변경+완료") (update_password x salt username pw db)

unfoldable pub admin_user_update_role : SessionUser → Text → Text → Db → Db × Response
unfolding text_eq
admin_user_update_role me username role db =
    if text_eq username me.username && not (text_eq role role_admin)
    then (db, users_page (codes "?error=자신의+관리자+권한을+제거할+수+없습니다"))
    else answer (codes "역할+변경+완료") (update_role username role db)

unfoldable pub admin_user_delete : SessionUser → Text → Db → Db × Response
admin_user_delete me username db =
    if text_eq username me.username
    then (db, users_page (codes "?error=자신의+계정을+삭제할+수+없습니다"))
    else answer (username ++ codes "+삭제+완료") (delete_user username db)
