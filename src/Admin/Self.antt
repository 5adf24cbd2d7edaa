-- ===== src/Admin/Self.antt =====
-- An administrator cannot lock the role of administrator out of the system.
use pfortainer.Base.{
  ℕ, ◌≡◌, refl, ◌≢◌, ◌⊎◌, inl, inr, false, not, ◌&&◌, ◌||◌, List, [], ◌∷◌, arith, Text, text_eq,
  trim, text_eq_iff, Result, ok, err, length, ltb, Bool-cases,
}
use pfortainer.Session.{SessionUser, role_admin}
use pfortainer.Store.{Time, Db}
use pfortainer.Store.Users.{External}
use pfortainer.Store.Users.Admins.{
  IsAdmin, create_user-IsAdmin, update_password-IsAdmin, update_role-IsAdmin, delete_user-IsAdmin,
}
use pfortainer.Admin.{
  answer, admin_user_create, admin_user_update_password, admin_user_update_role, admin_user_delete,
}

-- A request to the admin pages.
pub data AdminRequest : Type 0 where
  create : (salt : ℕ) (now : Time) (username password role : Text) → AdminRequest
  set_password : (salt : ℕ) (username password : Text) → AdminRequest
  set_role : (username role : Text) → AdminRequest
  delete : (username : Text) → AdminRequest

-- The redirect changes nothing.
answer-db : (success : Text) (m : Result (Unit {0}) × Db) → (answer success m).0 ≡ m.1
answer-db success (ok done, db) = refl
answer-db success (err e, db) = refl

module _ (x : External) (me : SessionUser) where
  pub handle : AdminRequest → Db → Db
  handle (create salt now username password role) db =
      (admin_user_create x salt now username password role db).0
  handle (set_password salt username password) db =
      (admin_user_update_password x salt username password db).0
  handle (set_role username role) db = (admin_user_update_role me username role db).0
  handle (delete username) db = (admin_user_delete me username db).0

  pub handle_all : List AdminRequest → Db → Db
  handle_all [] db = db
  handle_all (q ∷ qs) db = handle_all qs (handle q db)

  create-IsAdmin :
      (salt : ℕ) (now : Time) (username password role : Text) (db : Db)
      → IsAdmin me.username db
      → IsAdmin me.username (admin_user_create x salt now username password role db).0
  unfolding admin_user_create
  create-IsAdmin salt now username password role db h =
      elim (Bool-cases (text_eq (trim username) [] || text_eq password [])) [
        | inl e ↦ rw (admin_user_create, e) h
        | inr f ↦ elim (Bool-cases (ltb (length password) 8)) [
          | inl e ↦ rw (admin_user_create, f, e) h
          | inr e ↦
              rw (admin_user_create, f, e)
                (rw answer-db (create_user-IsAdmin x me.username salt now _ password role db h))
        ]
      ]

  password-IsAdmin :
      (salt : ℕ) (username password : Text) (db : Db)
      → IsAdmin me.username db
      → IsAdmin me.username (admin_user_update_password x salt username password db).0
  unfolding admin_user_update_password
  password-IsAdmin salt username password db h = elim (Bool-cases (ltb (length password) 8)) [
    | inl e ↦ rw (admin_user_update_password, e) h
    | inr e ↦
        rw (admin_user_update_password, e)
          (rw answer-db (update_password-IsAdmin x me.username salt username password db h))
  ]

  -- The guard failed: the name is another one, or the role is administrator.
  guard-false :
      (username role : Text)
      → (text_eq username me.username && not (text_eq role role_admin)) ≡ false
      → (username ≢ me.username) ⊎ (role ≡ role_admin)
  guard-false username role g = elim (Bool-cases (text_eq role role_admin)) [
    | inl a ↦ inr ((text_eq_iff role role_admin).0 a)
    | inr n ↦ inl (ground (arith, text_eq_iff username me.username))
  ]

  role-IsAdmin :
      (username role : Text) (db : Db)
      → IsAdmin me.username db
      → IsAdmin me.username (admin_user_update_role me username role db).0
  unfolding admin_user_update_role
  role-IsAdmin username role db h =
      elim (Bool-cases (text_eq username me.username && not (text_eq role role_admin))) [
        | inl e ↦ rw (admin_user_update_role, e) h
        | inr e ↦
            rw (admin_user_update_role, e)
              (rw answer-db
                (update_role-IsAdmin me.username username role db (guard-false username role e) h))
      ]

  delete-IsAdmin :
      (username : Text) (db : Db)
      → IsAdmin me.username db
      → IsAdmin me.username (admin_user_delete me username db).0
  unfolding admin_user_delete
  delete-IsAdmin username db h = elim (Bool-cases (text_eq username me.username)) [
    | inl e ↦ rw (admin_user_delete, e) h
    | inr e ↦
        rw (admin_user_delete, e)
          (rw answer-db (
            delete_user-IsAdmin me.username username db
              (ground (arith, text_eq_iff username me.username)) h))
  ]

  handle-IsAdmin :
      (q : AdminRequest) (db : Db) → IsAdmin me.username db → IsAdmin me.username (handle q db)
  unfolding handle
  handle-IsAdmin (create salt now username password role) db h =
      create-IsAdmin salt now username password role db h
  handle-IsAdmin (set_password salt username password) db h =
      password-IsAdmin salt username password db h
  handle-IsAdmin (set_role username role) db h = role-IsAdmin username role db h
  handle-IsAdmin (delete username) db h = delete-IsAdmin username db h

  -- If the row of the user who is logged in has the role of administrator, it still has after every
  -- sequence of that user's requests to create, change or delete users on the admin pages, whatever
  -- the driver answers.
  pub still-IsAdmin :
      (qs : List AdminRequest) (db : Db)
      → IsAdmin me.username db
      → IsAdmin me.username (handle_all qs db)
  unfolding handle_all
  still-IsAdmin [] db h = h
  still-IsAdmin (q ∷ qs) db h = still-IsAdmin qs (handle q db) (handle-IsAdmin q db h)
