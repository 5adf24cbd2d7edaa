-- ===== src/Store/Users/Tests.antt =====
-- The users table on concrete calls, with a reversible hash for bcrypt.
use pfortainer.Base.{
  ◌≡◌, refl, ◌≢◌, some, List, [], ◌∷◌, arith, Text, codes, text_eq, text_eq_iff, ok,
}
use pfortainer.Session.{role_exists, role_admin, role_operator}
use pfortainer.Store.{Db, UserRow, statement, empty_db}
use pfortainer.Store.Rows.{find, count_where, update_where, next_id, max_id}
use pfortainer.Store.Users.{
  External, BcryptAccepts, DbUser, create_user, insert_user, insert_row, new_user, update_password,
  set_hash, verify_password, to_user, named,
}
use pfortainer.Store.Users.Valid.{IsValidDb}
use pfortainer.Store.Users.Reach.{UserCall, create, change_role, delete, calls, calls-IsValid}
use pfortainer.Store.Users.Passwords.{create_then_login, change_then_login}

abbrev demo : External
demo = record {
  generate_from_password = λ salt password. ok (b'$' ∷ password);
  compare_hash_and_password = λ hash password. text_eq hash (b'$' ∷ password);
  unique_failed = codes "UNIQUE constraint failed: users.username";
}

demo-BcryptAccepts : BcryptAccepts demo
demo-BcryptAccepts salt password hash h = ground (arith, text_eq_iff hash (b'$' ∷ password))

abbrev ann : Text
ann = codes "ann"

abbrev secret : Text
secret = codes "secret"

abbrev with_ann : Db
with_ann = (create_user demo 7 0 ann secret role_operator empty_db).1

empty-IsValid : IsValidDb empty_db
empty-IsValid = record { ids = tt; names = tt; roles = tt }

abbrev story : List UserCall
story =
    create 7 0 ann secret role_operator
    ∷ create 8 0 ann secret role_operator
    ∷ change_role ann role_admin
    ∷ delete (codes "bob")
    ∷ []

calls-IsValid_example : IsValidDb (calls demo story empty_db)
calls-IsValid_example = calls-IsValid demo story empty_db empty-IsValid

ann_created : (create_user demo 7 0 ann secret role_operator empty_db).0 ≡ ok tt
unfolding create_user insert_user insert_row new_user role_exists text_eq statement count_where
    next_id max_id
ann_created = refl

ann_quiet : (create_user demo 7 0 ann secret role_operator empty_db).1.faults ≡ []
unfolding create_user insert_user insert_row new_user role_exists text_eq statement count_where
    next_id max_id
ann_quiet = refl

create_then_login_example :
    (u : DbUser) × ((verify_password demo ann secret with_ann).0 ≡ ok (some u))
    × (u.username ≡ ann)
    × (u.role ≡ role_operator)
create_then_login_example =
    create_then_login demo 7 0 ann secret role_operator empty_db demo-BcryptAccepts ann_created
      ann_quiet

abbrev changed : Text
changed = codes "changed"

change_ok : (update_password demo 9 ann changed with_ann).0 ≡ ok tt
unfolding create_user insert_user insert_row new_user role_exists text_eq statement count_where
    next_id max_id update_password set_hash update_where
change_ok = refl

change_quiet : (update_password demo 9 ann changed with_ann).1.faults ≡ []
unfolding create_user insert_user insert_row new_user role_exists text_eq statement count_where
    next_id max_id update_password set_hash update_where
change_quiet = refl

change_then_login_example :
    ((r : UserRow) × (find (named ann) with_ann.users ≡ some r)
      × ((verify_password demo ann changed (update_password demo 9 ann changed with_ann).1).0
          ≡ ok (some (to_user r))))
    × ((v : Text)
        → ann ≢ v
        → find (named v) (update_password demo 9 ann changed with_ann).1.users
          ≡ find (named v) with_ann.users)
change_then_login_example =
    change_then_login demo 9 ann changed with_ann demo-BcryptAccepts change_ok change_quiet
