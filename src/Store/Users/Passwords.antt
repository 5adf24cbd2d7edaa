-- ===== src/Store/Users/Passwords.antt =====
-- Credentials: what a password change or a new user means for the next login.
use pfortainer.Base.{
  ℕ, ◌≡◌, refl, ◌≢◌, ◌↔◌, inl, inr, true, none, some, List, [], ◌∷◌, ◌++◌, arith, Text, text_eq,
  text_eq_iff, text_eq_refl, ok, if◌then◌else◌, Option-cases, Result-cases,
}
use pfortainer.Store.{Time, UserRow, Db}
use pfortainer.Store.Rows.{find, count_where, update_where}
use pfortainer.Store.Statement.{statement_ok}
use pfortainer.Store.Users.{
  External, BcryptAccepts, DbUser, to_user, named, create_user, insert_user, insert_row, new_user,
  set_hash, update_password, verify_password, affected,
}

find-append-new :
    (username : Text) (rows : List UserRow) (z : UserRow)
    → count_where (named username) rows ≡ 0
    → named username z ≡ true
    → find (named username) (rows ++ z ∷ []) ≡ some z
unfolding find count_where
find-append-new username [] z h e = ground arith
find-append-new username (r ∷ rows) z h e = ground (arith, find-append-new username rows z)

-- The first row of the name, after an update of the rows of a name that keeps names.
pub find-update_where :
    (u v : Text) (f : UserRow → UserRow) (rows : List UserRow)
    → ((r : UserRow) → (f r).username ≡ r.username)
    → find (named v) (update_where (named u) f rows) ≡ (elim (find (named v) rows) [
      | none ↦ none
      | some r ↦ if text_eq u v then some (f r) else some r
    ])
unfolding find update_where
find-update_where u v f [] same = refl
find-update_where u v f (r ∷ rows) same = ground (
  arith,
  find-update_where u v f rows same,
  same r,
  text_eq_iff r.username u,
  text_eq_iff r.username v,
  text_eq_iff u v,
)

pub find-update_where_ne :
    (u v : Text) (f : UserRow → UserRow) (rows : List UserRow)
    → ((r : UserRow) → (f r).username ≡ r.username)
    → u ≢ v
    → find (named v) (update_where (named u) f rows) ≡ find (named v) rows
find-update_where_ne u v f rows same ne =
    ground (arith, find-update_where u v f rows same, text_eq_iff u v)

count-zero-find :
    (u : Text) (rows : List UserRow)
    → (count_where (named u) rows ≡ 0) ↔ (find (named u) rows ≡ none)
unfolding find count_where
count-zero-find u [] = ground arith
count-zero-find u (r ∷ rows) = ground (arith, count-zero-find u rows)

module _ (x : External) where
  insert_row_ok :
      (r : UserRow) (db : Db)
      → (insert_row x r db).0 ≡ ok tt
      → (count_where (named r.username) db.users ≡ 0)
        × ((insert_row x r db).1.users ≡ db.users ++ r ∷ [])
  unfolding insert_row
  insert_row_ok r db h = ground arith

  -- A successful INSERT puts a row of the name where there was none.
  insert_user_ok :
      (username hash role : Text) (now : Time) (db : Db)
      → (insert_user x username hash role now db).0 ≡ ok tt
      → (r : UserRow) × (find (named username) (insert_user x username hash role now db).1.users
          ≡ some r)
        × (r.password_hash ≡ hash)
        × (r.role ≡ role)
        × (r.username ≡ username)
  unfolding insert_user new_user
  insert_user_ok username hash role now db h =
      let (rest, e) =
        statement_ok (λ d. insert_row x (new_user username hash role now d.users) d) db h in
      let r = new_user username hash role now db.users in
      let (free, rows) = insert_row_ok r (record db { faults = rest }) (rw e at h) in
      (
        r,
        rw e (rw rows (find-append-new username db.users r free (text_eq_refl username))),
        refl,
        refl,
        refl,
      )

  login-found :
      (username password : Text) (db : Db) (r : UserRow)
      → db.faults ≡ []
      → find (named username) db.users ≡ some r
      → x.compare_hash_and_password r.password_hash password ≡ true
      → (verify_password x username password db).0 ≡ ok (some (to_user r))
  unfolding verify_password
  login-found username password db r quiet found same = ground arith

  -- What a successful call has passed: the role test and the hash.
  create_user_ok :
      (salt : ℕ) (now : Time) (username password role : Text) (db : Db)
      → (create_user x salt now username password role db).0 ≡ ok tt
      → (hash : Text) × (x.generate_from_password salt password ≡ ok hash)
        × (create_user x salt now username password role db
            ≡ insert_user x username hash role now db)
  unfolding create_user
  create_user_ok salt now username password role db h =
      elim (Result-cases (x.generate_from_password salt password)) [
        | inl (hash, e) ↦ (hash, e, ground arith)
        | inr (m, e) ↦ absurd (ground arith)
      ]

  -- If bcrypt accepts the passwords that it hashed, CreateUser succeeded and no driver error is to
  -- come, then VerifyPassword with that password returns a user of that name and role.
  pub create_then_login :
      (salt : ℕ) (now : Time) (username password role : Text) (db : Db)
      → BcryptAccepts x
      → (create_user x salt now username password role db).0 ≡ ok tt
      → (create_user x salt now username password role db).1.faults ≡ []
      → (u : DbUser) × ((verify_password x username password
            (create_user x salt now username password role db).1).0
          ≡ ok (some u))
        × (u.username ≡ username)
        × (u.role ≡ role)
  create_then_login salt now username password role db accepts h quiet =
      let (hash, e, same) = create_user_ok salt now username password role db h in
      let (r, found, hashed, has, name) = insert_user_ok username hash role now db (rw same at h) in
      (
        to_user r,
        rw same (
            login-found username password _ r (rw same at quiet) found
              (rw hashed (accepts salt password hash e))),
        name,
        has,
      )

some-of_count :
    (username : Text) (rows : List UserRow)
    → affected username (count_where (named username) rows) ≡ ok tt
    → (r : UserRow) × (find (named username) rows ≡ some r)
some-of_count username rows h = elim (Option-cases (find (named username) rows)) [
  | inr found ↦ found
  | inl missing ↦ absurd (ground (arith, count-zero-find username rows))
]

set_hash_ok :
    (username hash : Text) (db : Db)
    → (set_hash username hash db).0 ≡ ok tt
    → (r : UserRow) × (find (named username) db.users ≡ some r)
      × ((set_hash username hash db).1.users
          ≡ update_where
              (named username)
              (λ (r : UserRow). record r { password_hash = hash })
              db.users)
unfolding set_hash
set_hash_ok username hash db h =
    let (rest, e) =
      statement_ok
        (λ d. (
          affected username (count_where (named username) d.users),
          record d {
            users =
                update_where (named username) (λ (r : UserRow). record r { password_hash = hash })
                  d.users;
          },
        ))
        db h in
    let (r, found) = some-of_count username db.users (rw e at h) in (r, found, rw e)

module _ (x : External) where
  update_password_ok :
      (salt : ℕ) (username password : Text) (db : Db)
      → (update_password x salt username password db).0 ≡ ok tt
      → (hash : Text) × (x.generate_from_password salt password ≡ ok hash)
        × (update_password x salt username password db ≡ set_hash username hash db)
  unfolding update_password
  update_password_ok salt username password db h =
      elim (Result-cases (x.generate_from_password salt password)) [
        | inl (hash, e) ↦ (hash, e, ground arith)
        | inr (m, e) ↦ absurd (ground arith)
      ]

  -- If bcrypt accepts the passwords that it hashed, UpdatePassword succeeded and no driver error is
  -- to come, then VerifyPassword with the new password returns the user with the id and role of the
  -- row before; and the first row of every other name is what it was.
  pub change_then_login :
      (salt : ℕ) (username password : Text) (db : Db)
      → BcryptAccepts x
      → (update_password x salt username password db).0 ≡ ok tt
      → (update_password x salt username password db).1.faults ≡ []
      → ((r : UserRow) × (find (named username) db.users ≡ some r)
          × ((verify_password x username password (update_password x salt username password db).1).0
              ≡ ok (some (to_user r))))
        × ((v : Text)
            → username ≢ v
            → find (named v) (update_password x salt username password db).1.users
              ≡ find (named v) db.users)
  change_then_login salt username password db accepts h quiet =
      let (hash, e, same) = update_password_ok salt username password db h in
      let (r, found, rows) = set_hash_ok username hash db (rw same at h) in
      let set : UserRow → UserRow = λ q. record q { password_hash = hash } in
      (
        (
          r,
          found,
          rw same (
              login-found x username password _ (set r) (rw same at quiet)
                (rw rows (
                  rw (
                    find-update_where username username set db.users (λ q. refl),
                    found,
                    text_eq_refl username,
                  )))
                (accepts salt password hash e)),
        ),
        λ v ne. rw (same, rows) (find-update_where_ne username v set db.users (λ q. refl) ne),
      )
