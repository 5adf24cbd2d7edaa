-- ===== src/Store/Users/Admins.antt =====
-- A user whose row has the role of administrator, and which operations leave it so.
use pfortainer.Base.{
  ℕ, ◌≡◌, refl, ◌≢◌, ◌⊎◌, inl, inr, some, List, [], ◌∷◌, ◌++◌, arith, Text, text_eq, text_eq_iff,
  ◌==◌, Bool-cases, Result-cases,
}
use pfortainer.Session.{role_admin, role_exists}
use pfortainer.Store.{Time, Db, UserRow}
use pfortainer.Store.Rows.{find, update_where, delete_where, count_where}
use pfortainer.Store.Statement.{FaultBlind, statement_keeps}
use pfortainer.Store.Users.{
  External, named, create_user, insert_user, insert_row, new_user, update_role, set_role, set_hash,
  update_password, delete_user,
}
use pfortainer.Store.Users.Passwords.{find-update_where}

-- The row of the name has the role of administrator.
abbrev pub IsAdmin : Text → Db → Type 0
IsAdmin name db = (r : UserRow) × (find (named name) db.users ≡ some r) × (r.role ≡ role_admin)

IsAdmin-blind : (name : Text) → FaultBlind (IsAdmin name)
IsAdmin-blind name db fs h = h

find-delete_ne :
    (u v : Text) (rows : List UserRow)
    → u ≢ v
    → find (named v) (delete_where (named u) rows) ≡ find (named v) rows
unfolding find delete_where
find-delete_ne u v [] ne = refl
find-delete_ne u v (r ∷ rows) ne =
    ground (arith, find-delete_ne u v rows ne, text_eq_iff r.username u, text_eq_iff r.username v)

-- An update of the rows of a name that keeps the names, and keeps the role unless the name is
-- another one.
update-IsAdmin :
    (name username : Text) (f : UserRow → UserRow) (db : Db)
    → ((r : UserRow) → (f r).username ≡ r.username)
    → ((r : UserRow) → username ≡ name → r.role ≡ role_admin → (f r).role ≡ role_admin)
    → IsAdmin name db
    → IsAdmin name (record db { users = update_where (named username) f db.users })
update-IsAdmin name username f db same keeps (r, found, adm) =
    elim (Bool-cases (text_eq username name)) [
      | inl e ↦ (
        f r,
        ground (arith, find-update_where username name f db.users same),
        keeps r ((text_eq_iff username name).0 e) adm,
      )
      | inr n ↦ (r, ground (arith, find-update_where username name f db.users same), adm)
    ]

-- A role change on another name, or to administrator.
set_role-IsAdmin :
    (name username role : Text) (db : Db)
    → (username ≢ name) ⊎ (role ≡ role_admin)
    → IsAdmin name db
    → IsAdmin name (set_role username role db).1
unfolding set_role
set_role-IsAdmin name username role db (inl ne) h =
    statement_keeps (IsAdmin name) (IsAdmin-blind name) _
      (λ d.
        update-IsAdmin name username (λ (r : UserRow). record r { role = role }) d (λ r. refl)
          (λ r e a. absurd (ne e)))
      db h
set_role-IsAdmin name username role db (inr adm) h =
    statement_keeps (IsAdmin name) (IsAdmin-blind name) _
      (λ d.
        update-IsAdmin name username (λ (r : UserRow). record r { role = role }) d (λ r. refl)
          (λ r e a. adm))
      db h

pub delete_user-IsAdmin :
    (name username : Text) (db : Db)
    → username ≢ name
    → IsAdmin name db
    → IsAdmin name (delete_user username db).1
unfolding delete_user
delete_user-IsAdmin name username db ne h =
    statement_keeps (IsAdmin name) (IsAdmin-blind name) _
      (λ d (r, found, adm). (r, rw (find-delete_ne username name d.users ne) found, adm)) db h

set_hash-IsAdmin :
    (name username hash : Text) (db : Db)
    → IsAdmin name db
    → IsAdmin name (set_hash username hash db).1
unfolding set_hash
set_hash-IsAdmin name username hash db h =
    statement_keeps (IsAdmin name) (IsAdmin-blind name) _
      (λ d.
        update-IsAdmin name username (λ (r : UserRow). record r { password_hash = hash }) d
          (λ r. refl) (λ r e a. a))
      db h

find-append :
    (name : Text) (rows : List UserRow) (z r : UserRow)
    → find (named name) rows ≡ some r
    → find (named name) (rows ++ z ∷ []) ≡ some r
unfolding find
find-append name [] z r h = cc
find-append name (q ∷ rows) z r h = ground (arith, find-append name rows z r)

module _ (x : External) where
  insert_user-IsAdmin :
      (name username hash role : Text) (now : Time) (db : Db)
      → IsAdmin name db
      → IsAdmin name (insert_user x username hash role now db).1
  unfolding insert_user
  insert_user-IsAdmin name username hash role now db h =
      statement_keeps (IsAdmin name) (IsAdmin-blind name) _
        (λ d (r, found, adm). row d (new_user username hash role now d.users) r found adm) db h
    where
      row :
          (d : Db) (z r : UserRow)
          → find (named name) d.users ≡ some r
          → r.role ≡ role_admin
          → IsAdmin name (insert_row x z d).1
      row d z r found adm = elim (Bool-cases (count_where (named z.username) d.users == 0)) [
        | inl free ↦ rw (insert_row, free) (r, find-append name d.users z r found, adm)
        | inr taken ↦ rw (insert_row, taken) (r, found, adm)
      ]

  pub create_user-IsAdmin :
      (name : Text) (salt : ℕ) (now : Time) (username password role : Text) (db : Db)
      → IsAdmin name db
      → IsAdmin name (create_user x salt now username password role db).1
  unfolding create_user
  create_user-IsAdmin name salt now username password role db h =
      elim (Bool-cases (role_exists role)) [
        | inr bad ↦ rw (create_user, bad) h
        | inl has ↦ elim (Result-cases (x.generate_from_password salt password)) [
          | inl (hash, e) ↦
              rw (create_user, has, e) (insert_user-IsAdmin name username hash role now db h)
          | inr (m, e) ↦ rw (create_user, has, e) h
        ]
      ]

  pub update_password-IsAdmin :
      (name : Text) (salt : ℕ) (username password : Text) (db : Db)
      → IsAdmin name db
      → IsAdmin name (update_password x salt username password db).1
  unfolding update_password
  update_password-IsAdmin name salt username password db h =
      elim (Result-cases (x.generate_from_password salt password)) [
        | inl (hash, e) ↦ rw (update_password, e) (set_hash-IsAdmin name username hash db h)
        | inr (m, e) ↦ rw (update_password, e) h
      ]

pub update_role-IsAdmin :
    (name username role : Text) (db : Db)
    → (username ≢ name) ⊎ (role ≡ role_admin)
    → IsAdmin name db
    → IsAdmin name (update_role username role db).1
unfolding update_role
update_role-IsAdmin name username role db why h = elim (Bool-cases (role_exists role)) [
  | inl has ↦ rw (update_role, has) (set_role-IsAdmin name username role db why h)
  | inr bad ↦ rw (update_role, bad) h
]
