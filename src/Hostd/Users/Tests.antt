-- ===== src/Hostd/Users/Tests.antt =====
-- Requests on users, one of them with an option for a name.
use pfortainer.Base.{◌≡◌, refl, true, false, none, some, List, [], ◌∷◌, codes, All}
use pfortainer.Hostd.{Shell}
use pfortainer.Hostd.Users.{CreateBody, is_local_name}
use pfortainer.Hostd.Users.Allowed.{
  Allowed, UserRequest, create, remove, user_requests, only_valid_names,
}

abbrev quiet_host : Shell
quiet_host log cmd = ([], none)

abbrev new_user : CreateBody
new_user = record {
  username = codes "ann";
  fullname = codes "Ann";
  shell = [];
  password = codes "pw";
  smb_password = codes "pw";
}

abbrev story : List UserRequest
story =
    create (record { is_post = true; body = some new_user })
    ∷ remove (record { is_post = true; body = some (record { username = codes "-r" }) })
    ∷ []

only_valid_names_example : All Allowed (user_requests quiet_host story [])
only_valid_names_example = only_valid_names quiet_host story [] tt

option_refused : is_local_name (codes "-r") ≡ false
unfolding is_local_name
option_refused = refl
