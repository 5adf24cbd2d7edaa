-- ===== src/Store/Users/Valid.antt =====
-- Every operation on the users table keeps it well formed, whatever the driver answers.
use pfortainer.Base.{
  ℕ, ◌≡◌, ◌≢◌, Bool, true, false, not, List, [], ◌∷◌, ◌++◌, arith, Text, text_eq_iff, All,
  All-append,
}
use pfortainer.Session.{role_exists}
use pfortainer.Store.{UserRow, Db}
use pfortainer.Store.Rows.{update_where, delete_where, count_where, next_id, DistinctKeys}
use pfortainer.Store.Rows.Laws.{
  All-map_rows, All-update_where, All-keep_rows, DistinctKeys-update_where, DistinctKeys-keep,
  DistinctKeys-append, count_where-zero, next_id-new,
}
use pfortainer.Store.Statement.{FaultBlind}
use pfortainer.Store.Users.{named}

-- Ids and names are unique, and each role is one of the three.
pub record IsValidUsers (rows : List UserRow) : Type 0 where
  pub ids : DistinctKeys (λ (r : UserRow). r.id) rows
  pub names : DistinctKeys (λ (r : UserRow). r.username) rows
  pub roles : All (λ (r : UserRow). role_exists r.role ≡ true) rows

abbrev pub IsValidDb : Db → Type 0
IsValidDb db = IsValidUsers db.users

abbrev pub id_of : UserRow → ℕ
id_of r = r.id

abbrev name_of : UserRow → Text
name_of r = r.username

abbrev pub HasRole : UserRow → Type 0
HasRole r = role_exists r.role ≡ true

pub IsValidDb-blind : FaultBlind IsValidDb
IsValidDb-blind db fs h = h

-- An update that leaves id and name alone and gives a role that exists.
pub update_where-IsValid :
    (p : UserRow → Bool) (f : UserRow → UserRow) (rows : List UserRow)
    → ((r : UserRow) → (f r).id ≡ r.id)
    → ((r : UserRow) → (f r).username ≡ r.username)
    → ((r : UserRow) → HasRole r → HasRole (f r))
    → IsValidUsers rows
    → IsValidUsers (update_where p f rows)
update_where-IsValid p f rows same_id same_name has v = record {
  ids = DistinctKeys-update_where id_of p f rows same_id v.ids;
  names = DistinctKeys-update_where name_of p f rows same_name v.names;
  roles = All-update_where HasRole p f rows has v.roles;
}

pub delete_where-IsValid :
    (p : UserRow → Bool) (rows : List UserRow)
    → IsValidUsers rows
    → IsValidUsers (delete_where p rows)
unfolding delete_where
delete_where-IsValid p rows v = record {
  ids = DistinctKeys-keep id_of (λ x. not (p x)) rows v.ids;
  names = DistinctKeys-keep name_of (λ x. not (p x)) rows v.names;
  roles = All-keep_rows HasRole (λ x. not (p x)) rows v.roles;
}

names-differ :
    (username : Text) (rows : List UserRow)
    → count_where (named username) rows ≡ 0
    → All (λ (r : UserRow). r.username ≢ username) rows
names-differ username rows h =
    All-map_rows (λ r. named username r ≡ false) (λ r. r.username ≢ username) rows
      (λ r f. ground (arith, text_eq_iff r.username username))
      (count_where-zero (named username) rows h)

pub append-IsValid :
    (rows : List UserRow) (z : UserRow)
    → z.id ≡ next_id id_of rows
    → count_where (named z.username) rows ≡ 0
    → HasRole z
    → IsValidUsers rows
    → IsValidUsers (rows ++ z ∷ [])
append-IsValid rows z new free has v = record {
  ids = DistinctKeys-append id_of rows z (rw new (next_id-new id_of rows)) v.ids;
  names = DistinctKeys-append name_of rows z (names-differ z.username rows free) v.names;
  roles = All-append HasRole rows (z ∷ []) v.roles (has, tt);
}
