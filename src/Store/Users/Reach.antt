-- ===== src/Store/Users/Reach.antt =====
-- The users table under any sequence of calls of ConfigDB's methods.
use pfortainer.Base.{
  ℕ, ◌≡◌, refl, inl, inr, Bool, true, List, [], ◌∷◌, arith, Text, codes, Result, ltb, ◌==◌,
  Bool-cases, Result-cases,
}
use pfortainer.Session.{role_exists, role_admin}
use pfortainer.Store.{Time, UserRow, Db, statement}
use pfortainer.Store.Rows.{count_where, update_where}
use pfortainer.Store.Statement.{statement_keeps, and_then_keeps}
use pfortainer.Store.Users.{
  External, named, create_user, insert_user, insert_row, new_user, count_users, first_admin,
  bootstrap_admin, update_password, update_role, delete_user, set_totp_secret, enable_totp,
  disable_totp,
}
use pfortainer.Store.Users.Valid.{
  IsValidDb, HasRole, IsValidDb-blind, update_where-IsValid, delete_where-IsValid, append-IsValid,
}

-- A call of a method that touches the users table, with the salt and the time that it draws.
pub data UserCall : Type 0 where
  bootstrap : (salt : ℕ) (now : Time) (password : Text) → UserCall
  create : (salt : ℕ) (now : Time) (username password role : Text) → UserCall
  set_password : (salt : ℕ) (username password : Text) → UserCall
  change_role : (username role : Text) → UserCall
  delete : (username : Text) → UserCall
  set_secret : (username secret : Text) → UserCall
  enable : (username : Text) → UserCall
  disable : (username : Text) → UserCall

module _ (x : External) where
  -- The database after the call, whether it returns an error or not.
  pub call : UserCall → Db → Db
  call (bootstrap salt now password) db = (bootstrap_admin x salt now password db).1
  call (create salt now username password role) db =
      (create_user x salt now username password role db).1
  call (set_password salt username password) db = (update_password x salt username password db).1
  call (change_role username role) db = (update_role username role db).1
  call (delete username) db = (delete_user username db).1
  call (set_secret username secret) db = (set_totp_secret username secret db).1
  call (enable username) db = (enable_totp username db).1
  call (disable username) db = (disable_totp username db).1

  pub calls : List UserCall → Db → Db
  calls [] db = db
  calls (c ∷ cs) db = calls cs (call c db)

  insert_user-IsValid :
      (username hash role : Text) (now : Time) (db : Db)
      → role_exists role ≡ true
      → IsValidDb db
      → IsValidDb (insert_user x username hash role now db).1
  unfolding insert_user new_user
  insert_user-IsValid username hash role now db has v =
      statement_keeps IsValidDb IsValidDb-blind _
        (λ d h. elim (Bool-cases (count_where (named username) d.users == 0)) [
          | inl free ↦ rw (insert_row, free) (append-IsValid d.users _ refl (ground arith) has h)
          | inr taken ↦ rw (insert_row, taken) h
        ])
        db v

  create_user-IsValid :
      (salt : ℕ) (now : Time) (username password role : Text) (db : Db)
      → IsValidDb db
      → IsValidDb (create_user x salt now username password role db).1
  unfolding create_user
  create_user-IsValid salt now username password role db v = elim (Bool-cases (role_exists role)) [
    | inr bad ↦ rw bad v
    | inl has ↦ rw has (elim (Result-cases (x.generate_from_password salt password)) [
      | inl (hash, e) ↦ rw e (insert_user-IsValid username hash role now db has v)
      | inr (m, e) ↦ rw e v
    ])
  ]

  bootstrap_admin-IsValid :
      (salt : ℕ) (now : Time) (password : Text) (db : Db)
      → IsValidDb db
      → IsValidDb (bootstrap_admin x salt now password db).1
  unfolding bootstrap_admin
  bootstrap_admin-IsValid salt now password db v =
      and_then_keeps IsValidDb (count_users db) (first_admin x salt now password)
        (statement_keeps IsValidDb IsValidDb-blind _ (λ d h. h) db v)
        (λ count d h. elim (Bool-cases (ltb 0 count)) [
          | inl some_users ↦ rw some_users h
          | inr no_users ↦
              rw no_users (create_user-IsValid salt now (codes "admin") password role_admin d h)
        ])

  update_password-IsValid :
      (salt : ℕ) (username password : Text) (db : Db)
      → IsValidDb db
      → IsValidDb (update_password x salt username password db).1
  unfolding update_password
  update_password-IsValid salt username password db v =
      elim (Result-cases (x.generate_from_password salt password)) [
        | inl (hash, e) ↦
            rw (update_password, e)
              (statement_keeps IsValidDb IsValidDb-blind _
                (λ d h. update_where-IsValid _ _ d.users (λ r. refl) (λ r. refl) (λ r k. k) h) db v)
        | inr (m, e) ↦ rw (update_password, e) v
      ]

-- The updates that keep ids, names and roles.
update-IsValidDb :
    (p : UserRow → Bool) (f : UserRow → UserRow) (r : Db → Result (Unit {0})) (db : Db)
    → ((u : UserRow) → (f u).id ≡ u.id)
    → ((u : UserRow) → (f u).username ≡ u.username)
    → ((u : UserRow) → HasRole u → HasRole (f u))
    → IsValidDb db
    → IsValidDb (statement (λ d. (r d, record d { users = update_where p f d.users })) db).1
update-IsValidDb p f r db same_id same_name has v =
    statement_keeps IsValidDb IsValidDb-blind _
      (λ d h. update_where-IsValid p f d.users same_id same_name has h) db v

update_role-IsValid :
    (username role : Text) (db : Db) → IsValidDb db → IsValidDb (update_role username role db).1
unfolding update_role
update_role-IsValid username role db v = elim (Bool-cases (role_exists role)) [
  | inl has ↦ rw has (update-IsValidDb _ _ _ db (λ u. refl) (λ u. refl) (λ u k. has) v)
  | inr bad ↦ rw bad v
]

delete_user-IsValid :
    (username : Text) (db : Db) → IsValidDb db → IsValidDb (delete_user username db).1
unfolding delete_user
delete_user-IsValid username db v =
    statement_keeps IsValidDb IsValidDb-blind _
      (λ d h. delete_where-IsValid (named username) d.users h) db v

totp-IsValid :
    (username secret : Text) (db : Db)
    → IsValidDb db
    → IsValidDb (set_totp_secret username secret db).1
      × IsValidDb (enable_totp username db).1
      × IsValidDb (disable_totp username db).1
unfolding set_totp_secret enable_totp disable_totp
totp-IsValid username secret db v = (
  update-IsValidDb _ _ _ db (λ u. refl) (λ u. refl) (λ u k. k) v,
  update-IsValidDb _ _ _ db (λ u. refl) (λ u. refl) (λ u k. k) v,
  update-IsValidDb _ _ _ db (λ u. refl) (λ u. refl) (λ u k. k) v,
)

module _ (x : External) where
  call-IsValid : (c : UserCall) (db : Db) → IsValidDb db → IsValidDb (call x c db)
  unfolding call
  call-IsValid (bootstrap salt now password) db v = bootstrap_admin-IsValid x salt now password db v
  call-IsValid (create salt now username password role) db v =
      create_user-IsValid x salt now username password role db v
  call-IsValid (set_password salt username password) db v =
      update_password-IsValid x salt username password db v
  call-IsValid (change_role username role) db v = update_role-IsValid username role db v
  call-IsValid (delete username) db v = delete_user-IsValid username db v
  call-IsValid (set_secret username secret) db v = (totp-IsValid username secret db v).0
  call-IsValid (enable username) db v = (totp-IsValid username [] db v).1
  call-IsValid (disable username) db v = (totp-IsValid username [] db v).2

  -- From a users table with unique ids, unique names and roles of the three, every sequence of
  -- calls of ConfigDB's methods leads to such a table, whatever the calls return and whatever the
  -- driver answers.
  pub calls-IsValid : (cs : List UserCall) (db : Db) → IsValidDb db → IsValidDb (calls x cs db)
  unfolding calls
  calls-IsValid [] db v = v
  calls-IsValid (c ∷ cs) db v = calls-IsValid cs (call x c db) (call-IsValid c db v)
