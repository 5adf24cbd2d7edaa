-- ===== src/Hostd/Users/Allowed.antt =====
-- What the agent runs for requests on users and groups.
use pfortainer.Base.{
  ◌≡◌, inl, inr, true, not, ◌||◌, Option, none, some, List, [], ◌∷◌, arith, Text, codes, text_eq,
  All, All-append, if◌then◌else◌, Bool-cases,
}
use pfortainer.Http.{Response}
use pfortainer.Hostd.{Command, Log, Shell, command, exec, Request, with_body-keeps}
use pfortainer.Hostd.Users.{
  CreateBody, UserBody, PasswordBody, GroupBody, MemberBody, is_local_name, is_shell, pw, smbpasswd,
  useradd, set_password, exec_if, after_useradd, add_user, create_body, delete_body, smbpasswd_body,
  group_create_body, group_delete_body, member_body, local_users_create, local_users_delete,
  local_users_smbpasswd, local_groups_create, local_groups_delete, local_groups_member,
}

-- The name stands for a user or a group, and is no option of a command.
abbrev pub IsName : Text → Type 0
IsName name = is_local_name name ≡ true

-- The commands on users and groups, each on valid names only.
pub data Allowed : Command → Type 0 where
  add :
      {name shell : Text} (fullname : Text)
      → IsName name
      → is_shell shell ≡ true
      → Allowed (useradd name shell fullname)
  password : {name : Text} (secret : Text) → IsName name → Allowed (set_password name secret)
  smb : {name : Text} (secret : Text) → IsName name → Allowed (smbpasswd name secret)
  smb_delete :
      {name : Text} → IsName name → Allowed (command (codes "smbpasswd" ∷ codes "-x" ∷ name ∷ []))
  delete :
      {name : Text}
      → IsName name
      → Allowed (pw (codes "userdel" ∷ codes "-n" ∷ name ∷ codes "-r" ∷ []))
  group_add : {name : Text} → IsName name → Allowed (pw (codes "groupadd" ∷ codes "-n" ∷ name ∷ []))
  group_delete :
      {name : Text} → IsName name → Allowed (pw (codes "groupdel" ∷ codes "-n" ∷ name ∷ []))
  member_add :
      {group name : Text}
      → IsName group
      → IsName name
      → Allowed (pw (codes "groupmod" ∷ group ∷ codes "-m" ∷ name ∷ []))
  member_remove :
      {group name : Text}
      → IsName group
      → IsName name
      → Allowed (pw (codes "groupmod" ∷ group ∷ codes "-d" ∷ name ∷ []))

-- A request to one of the addresses.
pub data UserRequest : Type 0 where
  create : Request CreateBody → UserRequest
  remove : Request UserBody → UserRequest
  set_smb : Request PasswordBody → UserRequest
  create_group : Request GroupBody → UserRequest
  remove_group : Request GroupBody → UserRequest
  change_member : Request MemberBody → UserRequest

pub user_request : Shell → UserRequest → Log → Log × Response
user_request sh (create q) = local_users_create sh q
user_request sh (remove q) = local_users_delete sh q
user_request sh (set_smb q) = local_users_smbpasswd sh q
user_request sh (create_group q) = local_groups_create sh q
user_request sh (remove_group q) = local_groups_delete sh q
user_request sh (change_member q) = local_groups_member sh q

pub user_requests : Shell → List UserRequest → Log → Log
user_requests sh [] log = log
user_requests sh (q ∷ qs) log = user_requests sh qs (user_request sh q log).0

module _ (sh : Shell) where
  ran :
      (cmd : Command) (log : Log) → Allowed cmd → All Allowed log → All Allowed (exec sh cmd log).1
  ran cmd log a h = All-append Allowed log (cmd ∷ []) h (a, tt)

  exec_if-Allowed :
      (text : Text) (cmd : Command) (log : Log)
      → Allowed cmd
      → All Allowed log
      → All Allowed (exec_if sh text cmd log)
  exec_if-Allowed text cmd log a h = elim (Bool-cases (text_eq text [])) [
    | inl e ↦ rw e h
    | inr e ↦ rw e (ran cmd log a h)
  ]

  after_useradd-Allowed :
      (b : CreateBody) (r : Text × Option Text) (log : Log)
      → IsName b.username
      → All Allowed log
      → All Allowed (after_useradd sh b (r, log)).0
  after_useradd-Allowed b (out, some e) log n h = h
  after_useradd-Allowed b (out, none) log n h =
      exec_if-Allowed b.smb_password _ _ (smb b.smb_password n)
        (exec_if-Allowed b.password _ log (password b.password n) h)

  add_user-Allowed :
      (b : CreateBody) (shell : Text) (log : Log)
      → IsName b.username
      → All Allowed log
      → All Allowed (add_user sh b shell log).0
  add_user-Allowed b shell log n h = elim (Bool-cases (is_shell shell)) [
    | inr e ↦ rw e h
    | inl e ↦ rw e (
        after_useradd-Allowed b (sh log (useradd b.username shell b.fullname)) _ n
          (ran (useradd b.username shell b.fullname) log (add b.fullname n e) h))
  ]

  create-Allowed :
      (b : CreateBody) (log : Log) → All Allowed log → All Allowed (create_body sh b log).0
  unfolding create_body
  create-Allowed b log h = elim (Bool-cases (is_local_name b.username)) [
    | inr e ↦ rw (create_body, e) h
    | inl e ↦
        rw (create_body, e)
          (add_user-Allowed b (if text_eq b.shell [] then codes "/sbin/nologin" else b.shell) log e
            h)
  ]

  delete-Allowed :
      (b : UserBody) (log : Log) → All Allowed log → All Allowed (delete_body sh b log).0
  unfolding delete_body
  delete-Allowed b log h = elim (Bool-cases (is_local_name b.username)) [
    | inr e ↦ rw (delete_body, e) h
    | inl e ↦ rw (delete_body, e) (ran _ _ (delete e) (ran _ log (smb_delete e) h))
  ]

  smbpasswd-Allowed :
      (b : PasswordBody) (log : Log) → All Allowed log → All Allowed (smbpasswd_body sh b log).0
  unfolding smbpasswd_body
  smbpasswd-Allowed b log h =
      elim (Bool-cases (not (is_local_name b.username) || text_eq b.password [])) [
        | inl e ↦ rw (smbpasswd_body, e) h
        | inr e ↦ rw (smbpasswd_body, e) (ran _ log (smb b.password (ground arith)) h)
      ]

  group_create-Allowed :
      (b : GroupBody) (log : Log) → All Allowed log → All Allowed (group_create_body sh b log).0
  unfolding group_create_body
  group_create-Allowed b log h = elim (Bool-cases (is_local_name b.name)) [
    | inr e ↦ rw (group_create_body, e) h
    | inl e ↦ rw (group_create_body, e) (ran _ log (group_add e) h)
  ]

  group_delete-Allowed :
      (b : GroupBody) (log : Log) → All Allowed log → All Allowed (group_delete_body sh b log).0
  unfolding group_delete_body
  group_delete-Allowed b log h = elim (Bool-cases (is_local_name b.name)) [
    | inr e ↦ rw (group_delete_body, e) h
    | inl e ↦ rw (group_delete_body, e) (ran _ log (group_delete e) h)
  ]

  member-Allowed :
      (b : MemberBody) (log : Log) → All Allowed log → All Allowed (member_body sh b log).0
  unfolding member_body
  member-Allowed b log h =
      elim (Bool-cases (not (is_local_name b.group) || not (is_local_name b.username))) [
        | inl e ↦ rw (member_body, e) h
        | inr e ↦ elim (Bool-cases (text_eq b.action (codes "remove"))) [
          | inl r ↦
              rw (member_body, e, r) (ran _ log (member_remove (ground arith) (ground arith)) h)
          | inr a ↦ rw (member_body, e, a) (ran _ log (member_add (ground arith) (ground arith)) h)
        ]
      ]

  request-Allowed :
      (q : UserRequest) (log : Log) → All Allowed log → All Allowed (user_request sh q log).0
  unfolding user_request local_users_create local_users_delete local_users_smbpasswd
      local_groups_create local_groups_delete local_groups_member
  request-Allowed (create q) log h =
      with_body-keeps (All Allowed) q (create_body sh) log h (λ b. create-Allowed b log h)
  request-Allowed (remove q) log h =
      with_body-keeps (All Allowed) q (delete_body sh) log h (λ b. delete-Allowed b log h)
  request-Allowed (set_smb q) log h =
      with_body-keeps (All Allowed) q (smbpasswd_body sh) log h (λ b. smbpasswd-Allowed b log h)
  request-Allowed (create_group q) log h =
      with_body-keeps (All Allowed) q (group_create_body sh) log h
        (λ b. group_create-Allowed b log h)
  request-Allowed (remove_group q) log h =
      with_body-keeps (All Allowed) q (group_delete_body sh) log h
        (λ b. group_delete-Allowed b log h)
  request-Allowed (change_member q) log h =
      with_body-keeps (All Allowed) q (member_body sh) log h (λ b. member-Allowed b log h)

  -- Whatever the requests on local users and groups and whatever the host answers, all commands
  -- that the agent adds to a log of allowed ones are calls of pw and smbpasswd in their fixed
  -- forms, with names that localUserRe accepts and with one of the four shells.
  pub only_valid_names :
      (qs : List UserRequest) (log : Log) → All Allowed log → All Allowed (user_requests sh qs log)
  unfolding user_requests
  only_valid_names [] log h = h
  only_valid_names (q ∷ qs) log h =
      only_valid_names qs (user_request sh q log).0 (request-Allowed q log h)
