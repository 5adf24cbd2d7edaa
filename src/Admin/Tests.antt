-- ===== src/Admin/Tests.antt =====
-- The admin pages on a concrete table.
use pfortainer.Base.{refl, List, [], ◌∷◌, codes, text_eq, ok}
use pfortainer.Session.{SessionUser, role_admin, role_viewer}
use pfortainer.Store.{Db, empty_db}
use pfortainer.Store.Rows.{find}
use pfortainer.Store.Users.{External}
use pfortainer.Store.Users.Admins.{IsAdmin}
use pfortainer.Admin.Self.{AdminRequest, create, set_role, delete, handle_all, still-IsAdmin}

abbrev plain : External
plain = record {
  generate_from_password = λ salt password. ok password;
  compare_hash_and_password = text_eq;
  unique_failed = codes "UNIQUE constraint failed: users.username";
}

abbrev root : SessionUser
root = record { username = codes "root"; role = role_admin }

abbrev with_root : Db
with_root = record empty_db {
  users =
      record {
        id = 1;
        username = codes "root";
        password_hash = codes "pw";
        role = role_admin;
        created_at = 0;
        totp_secret = [];
        totp_enabled = 0;
      }
      ∷ [];
}

root-IsAdmin : IsAdmin root.username with_root
unfolding find text_eq
root-IsAdmin = (_, refl, refl)

abbrev requests : List AdminRequest
requests =
    set_role (codes "root") role_viewer
    ∷ delete (codes "root")
    ∷ create 1 0 (codes "bob") (codes "longenough") role_viewer
    ∷ delete (codes "bob")
    ∷ []

still-IsAdmin_example : IsAdmin root.username (handle_all plain root requests with_root)
still-IsAdmin_example = still-IsAdmin plain root requests with_root root-IsAdmin
