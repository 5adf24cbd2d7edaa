-- ===== src/Files/Listing.antt =====
-- filemanager.go: the listing of a directory (fileList, fileListJSON) and its entries.
use pfortainer.Base.{
  ℕ, zero, suc, ◌+◌, ◌/◌, ◌%◌, Bool, false, not, ◌&&◌, ◌||◌, Option, none, some, List, [], ◌∷◌,
  ◌++◌, map, Text, codes, text_eq, has_prefix, last_index, elem_text, decimal, Result, ok, err,
  drop, keep, any, ltb, leb, ◌==◌, if◌then◌else◌,
}
use pfortainer.FilePath.{slash, root, join, safe_path, parent_dir}
use pfortainer.FilePath.Crumbs.{Breadcrumb, build_breadcrumbs}
use pfortainer.Files.{Info, Os}
use pfortainer.Files.Sort.{arrange}
use pfortainer.Files.Clipboard.{ClipBoard, get_clipboard}
use pfortainer.Http.{Jar}

pub record FileEntry : Type 0 where
  pub name : Text
  pub path : Text
  pub is_dir : Bool
  pub is_link : Bool
  pub link_target : Text
  pub size : Text
  pub size_raw : ℕ
  pub mode : Text
  pub mode_octal : Text
  pub owner : Text
  pub group : Text
  pub mod_time : Text
  pub icon : Text

-- strconv.FormatUint(n, 8): n + 1 rounds are enough.
unfoldable pub octal_digits : ℕ → ℕ → Text
octal_digits zero n = []
octal_digits (suc fuel) n =
    let more = octal_digits fuel (n / 8) in (if ltb n 8 then [] else more) ++ (48 + n % 8) ∷ []

-- m.Perm() is m & 0777.
unfoldable pub mode_octal : ℕ → Text
unfolding octal_digits
mode_octal m = octal_digits 22 (m % 512)

-- filepath.Ext: from the last dot of the last element.
unfoldable pub ext : Text → Text
ext name = elim (last_index name b'.') [
  | none ↦ []
  | some i ↦ let e = drop i name in if any (λ c. c == slash) e then [] else e
]

-- strings.ToLower, for bytes below 128.
abbrev lower_byte : ℕ → ℕ
lower_byte c = if leb 65 c && leb c 90 then c + 32 else c

abbrev pub to_lower : Text → Text
to_lower s = map lower_byte s

abbrev code_exts : List Text
code_exts = map codes (
    ".go" ∷ ".py" ∷ ".js" ∷ ".ts" ∷ ".rb" ∷ ".rs" ∷ ".c" ∷ ".cpp" ∷ ".h" ∷ ".java" ∷ ".sh" ∷ ".bash"
    ∷ ".zsh" ∷ ".fish" ∷ ".pl" ∷ ".php" ∷ [])

abbrev markup_exts : List Text
markup_exts = map codes (
    ".html" ∷ ".htm" ∷ ".xml" ∷ ".css" ∷ ".json" ∷ ".yaml" ∷ ".yml" ∷ ".toml" ∷ ".ini" ∷ ".conf"
    ∷ ".cfg" ∷ [])

abbrev icon_table : List (List Text × Text)
icon_table =
    (code_exts, codes "bi-file-code")
    ∷ (markup_exts, codes "bi-file-earmark-code")
    ∷ (map codes (".txt" ∷ ".md" ∷ ".rst" ∷ ".log" ∷ []), codes "bi-file-text")
    ∷ (map codes (".pdf" ∷ []), codes "bi-file-pdf")
    ∷ (
      map codes
          (".jpg" ∷ ".jpeg" ∷ ".png" ∷ ".gif" ∷ ".svg" ∷ ".webp" ∷ ".ico" ∷ ".bmp" ∷ ".tiff" ∷ []),
      codes "bi-file-image",
    )
    ∷ (map codes (".mp4" ∷ ".mkv" ∷ ".avi" ∷ ".mov" ∷ ".webm" ∷ []), codes "bi-file-play")
    ∷ (map codes (".mp3" ∷ ".wav" ∷ ".ogg" ∷ ".flac" ∷ ".aac" ∷ []), codes "bi-file-music")
    ∷ (
      map codes (
          ".zip" ∷ ".tar" ∷ ".gz" ∷ ".bz2" ∷ ".xz" ∷ ".zst" ∷ ".7z" ∷ ".rar" ∷ ".tgz" ∷ ".txz"
          ∷ []),
      codes "bi-file-zip",
    )
    ∷ (map codes (".deb" ∷ ".rpm" ∷ ".pkg" ∷ []), codes "bi-box-seam")
    ∷ (map codes (".db" ∷ ".sqlite" ∷ ".sqlite3" ∷ []), codes "bi-database")
    ∷ (map codes (".pem" ∷ ".crt" ∷ ".key" ∷ ".p12" ∷ ".pfx" ∷ []), codes "bi-shield-lock")
    ∷ []

-- The switch over the extension.
unfoldable pub icon_of : Text → List (List Text × Text) → Text
icon_of e [] = codes "bi-file-earmark"
icon_of e ((exts, icon) ∷ table) = if elem_text e exts then icon else icon_of e table

unfoldable pub file_icon : Text → Bool → Bool → Text
unfolding ext icon_of
file_icon name is_dir is_link =
    if is_link
    then codes "bi-arrow-right-square"
    else if is_dir
    then codes "bi-folder-fill"
    else icon_of (to_lower (ext name)) icon_table

unfoldable pub is_hidden : Text → Bool
is_hidden name = has_prefix name (codes ".")

-- A Go result whose error the code drops.
abbrev value_or {ℓ} : {A : Type ℓ} → A → Result A → A
value_or a (ok b) = b
value_or a (err _) = a

module _ {W : Type 0} (os : Os W) (fmt_bytes : ℕ → Text) (w : W) where
  unfoldable pub owner_group : Info → Text × Text
  owner_group info = elim info.owner [
    | none ↦ (codes "?", codes "?")
    | some (uid, gid) ↦ (
      value_or (decimal uid) (os.lookup_user (decimal uid)),
      value_or (decimal gid) (os.lookup_group (decimal gid)),
    )
  ]

  unfoldable pub to_file_entry : Text → Info → FileEntry
  unfolding join owner_group mode_octal file_icon
  to_file_entry dir info =
      let full = join dir info.name in
      let target = value_or [] (os.readlink full w) in
      let followed : Bool = elim (os.stat full w) [ ok i ↦ i.is_dir | err _ ↦ info.is_dir ] in
      let is_dir = if info.is_link then followed else info.is_dir in
      let owners = owner_group info in
      record {
        name = info.name;
        path = full;
        is_dir = is_dir;
        is_link = info.is_link;
        link_target = if info.is_link then target else [];
        size = fmt_bytes info.size;
        size_raw = info.size;
        mode = info.mode_text;
        mode_octal = mode_octal info.mode;
        owner = owners.0;
        group = owners.1;
        mod_time = info.mod_time;
        icon = file_icon info.name is_dir info.is_link;
      }

-- The page's data, and the two answers of a listing.
pub record FileListVm : Type 0 where
  pub cwd : Text
  pub breadcrumbs : List Breadcrumb
  pub entries : List FileEntry
  pub parent : Text
  pub clip : ClipBoard
  pub show_hidden : Bool

pub data Listed (V : Type 0) : Type 0 where
  shown : V → Listed V
  failed : (status : ℕ) (message : Text) → Listed V

abbrev pub shown_names : Bool → List Info → List Info
shown_names show_hidden infos = keep (λ i. show_hidden || not (is_hidden i.name)) infos

module _ {W : Type 0} (os : Os W) (fmt_bytes : ℕ → Text) (unmarshal : Text → Option ClipBoard) where
  unfoldable pub list_entries : Text → Bool → List Info → W → List FileEntry
  unfolding is_hidden to_file_entry arrange
  list_entries cwd show_hidden infos w =
      arrange (λ (e : FileEntry). e.name) (λ e. e.is_dir)
        (map (to_file_entry os fmt_bytes w cwd) (shown_names show_hidden infos))

  unfoldable pub file_list : Text → Bool → Jar → W → Listed FileListVm
  unfolding safe_path list_entries build_breadcrumbs parent_dir get_clipboard
  file_list raw show_hidden jar w = elim (safe_path (if text_eq raw [] then root else raw)) [
    | none ↦ failed 400 (codes "잘못된 경로입니다.")
    | some cwd ↦ elim (os.open_dir cwd w) [
      | err e ↦ failed 404 (codes "디렉토리를 열 수 없습니다: " ++ e)
      | ok _ ↦ elim (os.read_dir cwd w) [
        | err e ↦ failed 500 (codes "디렉토리를 읽을 수 없습니다: " ++ e)
        | ok infos ↦ shown record {
          cwd = cwd;
          breadcrumbs = build_breadcrumbs cwd;
          entries = list_entries cwd show_hidden infos w;
          parent = parent_dir cwd;
          clip = get_clipboard unmarshal jar;
          show_hidden = show_hidden;
        }
      ]
    ]
  ]

pub record JsonEntry : Type 0 where
  pub name : Text
  pub path : Text
  pub is_dir : Bool

pub record JsonList : Type 0 where
  pub cwd : Text
  pub parent : Text
  pub entries : List JsonEntry

unfoldable pub to_json_entry : Text → Info → JsonEntry
unfolding join
to_json_entry cwd info = record {
  name = info.name;
  path = join cwd info.name;
  is_dir = info.is_dir;
}

module _ {W : Type 0} (os : Os W) where
  -- The browser of the dialogues, which never lists hidden names.
  unfoldable pub file_list_json : Text → W → Listed JsonList
  unfolding safe_path parent_dir to_json_entry arrange is_hidden
  file_list_json raw w = elim (safe_path (if text_eq raw [] then root else raw)) [
    | none ↦ failed 400 (codes "잘못된 경로입니다.")
    | some cwd ↦ elim (os.open_dir cwd w) [
      | err e ↦ failed 404 e
      | ok _ ↦ elim (os.read_dir cwd w) [
        | err e ↦ failed 500 e
        | ok infos ↦ shown record {
          cwd = cwd;
          parent = parent_dir cwd;
          entries =
              arrange (λ (e : JsonEntry). e.name) (λ e. e.is_dir)
                (map (to_json_entry cwd) (shown_names false infos));
        }
      ]
    ]
  ]
