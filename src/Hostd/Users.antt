-- ===== src/Hostd/Users.antt =====
-- hostd.go: the requests that change local users and groups (/localusers/…, /localgroups/…).
pub mod Allowed
mod Tests
use pfortainer.Base.{
  ℕ, Bool, false, not, ◌&&◌, ◌||◌, Option, none, some, List, [], ◌∷◌, ◌++◌, Text, codes, text_eq,
  trim, elem_text, length, all, leb, ◌==◌, if◌then◌else◌,
}
use pfortainer.Http.{Response, http_error, json}
use pfortainer.Hostd.{Command, Log, Shell, command, exec, Request, bad_request, success, with_body}

abbrev is_letter : ℕ → Bool
is_letter c = (leb b'a' c && leb c b'z') || (leb b'A' c && leb c b'Z') || c == b'_'

abbrev is_name_byte : ℕ → Bool
is_name_byte c = is_letter c || (leb b'0' c && leb c b'9') || c == b'-'

-- localUserRe: ^[a-zA-Z_][a-zA-Z0-9_-]{0,30}$
unfoldable pub is_local_name : Text → Bool
is_local_name [] = false
is_local_name (c ∷ s) = is_letter c && all is_name_byte s && leb (length s) 30

unfoldable pub is_shell : Text → Bool
unfolding elem_text
is_shell s =
    elem_text s (
      codes "/sbin/nologin" ∷ codes "/bin/sh" ∷ codes "/usr/local/bin/bash" ∷ codes "/bin/csh" ∷ [])

pub record CreateBody : Type 0 where
  pub username : Text
  pub fullname : Text
  pub shell : Text
  pub password : Text
  pub smb_password : Text

pub record UserBody : Type 0 where
  pub username : Text

pub record PasswordBody : Type 0 where
  pub username : Text
  pub password : Text

pub record GroupBody : Type 0 where
  pub name : Text

pub record MemberBody : Type 0 where
  pub group : Text
  pub username : Text
  pub action : Text

abbrev pub pw : List Text → Command
pw args = command (codes "pw" ∷ args)

-- `smbpasswd -a -s name`, which reads the password twice.
abbrev pub smbpasswd : Text → Text → Command
smbpasswd username password = record {
  args = codes "smbpasswd" ∷ codes "-a" ∷ codes "-s" ∷ username ∷ [];
  stdin = password ++ b'\n' ∷ (password ++ b'\n' ∷ []);
}

abbrev pub full_name : Text → List Text
full_name fullname = if text_eq fullname [] then [] else codes "-c" ∷ fullname ∷ []

abbrev pub useradd : Text → Text → Text → Command
useradd username shell fullname =
    pw (
      codes "useradd"
      ∷ codes "-n"
      ∷ username
      ∷ codes "-m"
      ∷ codes "-s"
      ∷ shell
      ∷ full_name fullname)

abbrev pub set_password : Text → Text → Command
set_password username password = record {
  args = codes "pw" ∷ codes "usermod" ∷ username ∷ codes "-h" ∷ codes "0" ∷ [];
  stdin = password ++ b'\n' ∷ [];
}

abbrev pub answered : Text × Option Text → Response
answered (out, none) = success
answered (out, some e) = http_error 500 (trim out)

abbrev pub run_pw : Shell → Command → Log → Log × Response
run_pw sh cmd log = let (r, log') = exec sh cmd log in (log', answered r)

module _ (sh : Shell) where
  -- A command that is run only where the text is there; what it prints is ignored.
  abbrev pub exec_if : Text → Command → Log → Log
  exec_if text cmd log = if text_eq text [] then log else (exec sh cmd log).1

  abbrev pub after_useradd : CreateBody → (Text × Option Text) × Log → Log × Response
  after_useradd b ((out, some e), log) = (log, http_error 500 (trim out))
  after_useradd b ((out, none), log) = (
    exec_if b.smb_password (smbpasswd b.username b.smb_password)
        (exec_if b.password (set_password b.username b.password) log),
    success,
  )

  abbrev pub add_user : CreateBody → Text → Log → Log × Response
  add_user b shell log =
      if not (is_shell shell)
      then (log, http_error 400 (codes "invalid shell"))
      else after_useradd b (exec sh (useradd b.username shell b.fullname) log)

  unfoldable pub create_body : CreateBody → Log → Log × Response
  unfolding is_local_name is_shell text_eq trim
  create_body b log =
      if not (is_local_name b.username)
      then (log, http_error 400 (codes "invalid username"))
      else add_user b (if text_eq b.shell [] then codes "/sbin/nologin" else b.shell) log

  unfoldable pub local_users_create : Request CreateBody → Log → Log × Response
  unfolding with_body create_body
  local_users_create q = with_body q create_body

  -- The Samba account goes first, whatever comes of it.
  unfoldable pub delete_body : UserBody → Log → Log × Response
  unfolding is_local_name trim
  delete_body b log =
      if not (is_local_name b.username)
      then (log, bad_request)
      else run_pw sh (pw (codes "userdel" ∷ codes "-n" ∷ b.username ∷ codes "-r" ∷ []))
          (exec sh (command (codes "smbpasswd" ∷ codes "-x" ∷ b.username ∷ [])) log).1

  unfoldable pub local_users_delete : Request UserBody → Log → Log × Response
  unfolding with_body delete_body
  local_users_delete q = with_body q delete_body

  unfoldable pub smbpasswd_body : PasswordBody → Log → Log × Response
  unfolding is_local_name trim text_eq
  smbpasswd_body b log =
      if not (is_local_name b.username) || text_eq b.password []
      then (log, bad_request)
      else run_pw sh (smbpasswd b.username b.password) log

  unfoldable pub local_users_smbpasswd : Request PasswordBody → Log → Log × Response
  unfolding with_body smbpasswd_body
  local_users_smbpasswd q = with_body q smbpasswd_body

  unfoldable pub group_create_body : GroupBody → Log → Log × Response
  unfolding is_local_name trim
  group_create_body b log =
      if not (is_local_name b.name)
      then (log, bad_request)
      else run_pw sh (pw (codes "groupadd" ∷ codes "-n" ∷ b.name ∷ [])) log

  unfoldable pub local_groups_create : Request GroupBody → Log → Log × Response
  unfolding with_body group_create_body
  local_groups_create q = with_body q group_create_body

  unfoldable pub group_delete_body : GroupBody → Log → Log × Response
  unfolding is_local_name trim
  group_delete_body b log =
      if not (is_local_name b.name)
      then (log, bad_request)
      else run_pw sh (pw (codes "groupdel" ∷ codes "-n" ∷ b.name ∷ [])) log

  unfoldable pub local_groups_delete : Request GroupBody → Log → Log × Response
  unfolding with_body group_delete_body
  local_groups_delete q = with_body q group_delete_body

  unfoldable pub member_body : MemberBody → Log → Log × Response
  unfolding is_local_name trim text_eq
  member_body b log =
      if not (is_local_name b.group) || not (is_local_name b.username)
      then (log, bad_request)
      else let flag = if text_eq b.action (codes "remove") then codes "-d" else codes "-m" in
        run_pw sh (pw (codes "groupmod" ∷ b.group ∷ flag ∷ b.username ∷ [])) log

  unfoldable pub local_groups_member : Request MemberBody → Log → Log × Response
  unfolding with_body member_body
  local_groups_member q = with_body q member_body
