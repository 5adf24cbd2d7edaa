-- ===== src/Hostd/Shares.antt =====
-- hostd.go: the files of the Samba shares and of the NFS exports. `ConfDir` is the directory that they
-- stand in: each operation returns its error or none, and the state that it leaves. strings.ToLower
-- and EqualFold are written out for ASCII.
pub mod Trim
pub mod Lines
pub mod RoundTrip
pub mod Exports
pub mod Tests
use pfortainer.Base.{
  ℕ, ◌+◌, Bool, false, not, ◌&&◌, ◌||◌, Option, none, some, List, [], ◌∷◌, ◌++◌, map, Text, codes,
  text_eq, has_prefix, contains, cut, split, trim, Result, ok, err, length, drop, all, leb, ◌==◌,
  if◌then◌else◌,
}
use pfortainer.Http.{Response, http_error, json}
use pfortainer.FilePath.{clean, is_abs}
use pfortainer.Hostd.{Request, bad_request, success}

-- What os.Remove reports.
pub data Removed : Type 0 where
  gone : Removed
  not_there : Removed
  kept : (error : Text) → Removed

pub record ConfDir (W : Type 0) : Type 0 where
  pub mkdir_all : W → Result (Unit {0}) × W
  pub write_file : Text → Text → W → Result (Unit {0}) × W
  pub remove : Text → W → Removed × W

abbrev pub newline : ℕ
newline = 10

abbrev lower_byte : ℕ → ℕ
lower_byte c = if leb 65 c && leb c 90 then c + 32 else c

abbrev pub to_lower : Text → Text
to_lower s = map lower_byte s

pub record SmbShare : Type 0 where
  pub name : Text
  pub path : Text
  pub comment : Text
  pub valid_users : Text
  pub read_only : Bool
  pub browseable : Bool
  pub guest_ok : Bool

abbrev pub no_share : SmbShare
no_share = record {
  name = [];
  path = [];
  comment = [];
  valid_users = [];
  read_only = false;
  browseable = false;
  guest_ok = false;
}

-- strings.HasSuffix of one byte.
unfoldable pub ends_with : ℕ → Text → Bool
ends_with c [] = false
ends_with c (x ∷ []) = x == c
ends_with c (x ∷ y ∷ s) = ends_with c (y ∷ s)

unfoldable pub drop_last : Text → Text
drop_last [] = []
drop_last (x ∷ []) = []
drop_last (x ∷ y ∷ s) = x ∷ drop_last (y ∷ s)

unfoldable pub bool_val : Text → Bool
bool_val v = text_eq (to_lower (trim v)) (codes "yes")

-- The switch over the key.
unfoldable pub set_key : Text → Text → SmbShare → SmbShare
unfolding bool_val
set_key k v s =
    if text_eq k (codes "path")
    then record s { path = v }
    else if text_eq k (codes "comment")
    then record s { comment = v }
    else if text_eq k (codes "valid users")
    then record s { valid_users = v }
    else if text_eq k (codes "read only")
    then record s { read_only = bool_val v }
    else if text_eq k (codes "browseable")
    then record s { browseable = bool_val v }
    else if text_eq k (codes "guest ok")
    then record s { guest_ok = bool_val v }
    else s

-- A line without the spaces around it.
unfoldable pub parse_trimmed : Text → SmbShare → SmbShare
unfolding ends_with drop_last set_key
parse_trimmed t s =
    if has_prefix t (codes "[") && ends_with b']' t
    then record s { name = drop_last (drop 1 t) }
    else elim (cut t b'=') [ none ↦ s | some (k, v) ↦ set_key (to_lower (trim k)) (trim v) s ]

unfoldable pub parse_lines : List Text → SmbShare → SmbShare
unfolding parse_trimmed
parse_lines [] s = s
parse_lines (l ∷ ls) s = parse_lines ls (parse_trimmed (trim l) s)

unfoldable pub parse_smb_conf : Text → SmbShare
unfolding parse_lines
parse_smb_conf content = parse_lines (split content newline) no_share

abbrev pub bool_str : Bool → Text
bool_str b = if b then codes "Yes" else codes "No"

-- "\tkey = value"
abbrev pub option_line : Text → Text → Text
option_line key value = 9 ∷ (key ++ (codes " = " ++ value))

abbrev pub optional_line : Text → Text → List Text
optional_line key value = if text_eq value [] then [] else option_line key value ∷ []

-- The lines that smbShareToConf writes.
unfoldable pub conf_lines : SmbShare → List Text
conf_lines s =
    (b'[' ∷ (s.name ++ codes "]"))
    ∷ option_line (codes "path") s.path
    ∷ (optional_line (codes "comment") s.comment
        ++ (optional_line (codes "valid users") s.valid_users
            ++ (option_line (codes "read only") (bool_str s.read_only)
                ∷ option_line (codes "browseable") (bool_str s.browseable)
                ∷ option_line (codes "guest ok") (bool_str s.guest_ok)
                ∷ [])))

unfoldable pub unlines : List Text → Text
unlines [] = []
unlines (l ∷ ls) = l ++ newline ∷ unlines ls

unfoldable pub smb_share_to_conf : SmbShare → Text
unfolding conf_lines unlines
smb_share_to_conf s = unlines (conf_lines s)

abbrev is_alnum : ℕ → Bool
is_alnum c = (leb 65 c && leb c 90) || (leb 97 c && leb c 122) || (leb 48 c && leb c 57)

-- A letter or digit, then at most `more` letters, digits, "_" and "-".
unfoldable pub is_file_name : ℕ → Text → Bool
is_file_name more [] = false
is_file_name more (c ∷ cs) =
    is_alnum c && (all (λ x. is_alnum x || x == b'_' || x == b'-') cs && leb (length cs) more)

-- filepath.Clean and its two tests; a path that is not absolute stays so.
unfoldable pub checked_path : Text → Option Text
unfolding clean is_abs
checked_path path =
    if not (is_abs path)
    then none
    else if contains (clean path) (codes "..")
    then none
    else some (clean path)

abbrev smb_shares_dir : Text
smb_shares_dir = codes "/usr/local/etc/smb4.conf.d"

abbrev pub conf_path : Text → Text
conf_path name = smb_shares_dir ++ (b'/' ∷ (name ++ codes ".conf"))

module _ {W : Type 0} where
  -- The two tests at the start of a handler.
  unfoldable pub posted : {A : Type 0} → Request A → (A → W → Response × W) → W → Response × W
  posted q f w =
      if not q.is_post
      then (http_error 405 (codes "POST only"), w)
      else elim q.body [ none ↦ (bad_request, w) | some b ↦ f b w ]

  abbrev pub written : Result (Unit {0}) × W → Response × W
  written (ok _, w) = (success, w)
  written (err e, w) = (http_error 500 e, w)

  abbrev pub removed : Removed × W → Response × W
  removed (kept e, w) = (http_error 500 e, w)
  removed (gone, w) = (success, w)
  removed (not_there, w) = (success, w)

  module _ (dir : ConfDir W) where
    -- MkdirAll and WriteFile.
    unfoldable pub write_conf : Text → Text → Text → W → Response × W
    write_conf what path content w =
        let (made, w') = dir.mkdir_all w in
        elim made [
          | err e ↦ (http_error 500 (what ++ e), w')
          | ok _ ↦ written (dir.write_file path content w')
        ]

    unfoldable pub smb_share_body : SmbShare → W → Response × W
    unfolding is_file_name checked_path smb_share_to_conf write_conf
    smb_share_body s w =
        if not (is_file_name 79 s.name)
        then (
          http_error 400 (codes "invalid share name (alphanumeric, hyphen, underscore only)"),
          w,
        )
        else elim (checked_path s.path) [
          | none ↦ (http_error 400 (codes "invalid path"), w)
          | some path ↦
              write_conf (codes "shares.d mkdir: ") (conf_path s.name)
                (smb_share_to_conf (record s { path = path })) w
        ]

    unfoldable pub smb_share : Request SmbShare → W → Response × W
    unfolding posted smb_share_body
    smb_share q w = posted q smb_share_body w

    unfoldable pub smb_share_delete_body : Text → W → Response × W
    unfolding is_file_name
    smb_share_delete_body name w =
        if text_eq name []
        then (bad_request, w)
        else if not (is_file_name 79 name)
        then (http_error 400 (codes "invalid share name"), w)
        else removed (dir.remove (conf_path name) w)

    unfoldable pub smb_share_delete : Request Text → W → Response × W
    unfolding posted smb_share_delete_body
    smb_share_delete q w = posted q smb_share_delete_body w
