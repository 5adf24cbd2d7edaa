-- ===== src/Files/Change.antt =====
-- filemanager.go: the handlers that change files: save, mkdir, create, delete, rename, chmod and
-- upload.
use pfortainer.Base.{
  ℕ, ◌+◌, ◌-◌, ◌*◌, ◌^◌, Bool, false, ◌||◌, Option, none, some, List, [], ◌∷◌, ◌++◌, Text, codes,
  text_eq, Result, ok, err, ltb, leb, ◌==◌, if◌then◌else◌,
}
use pfortainer.FilePath.{slash, root, dot, dot_dot, join, base, dir_of, safe_path}
use pfortainer.Files.{Os, Answer, success, refused, bad_body, bad_path, bad_name, answered}

-- strings.ContainsAny(name, "/\x00").
unfoldable pub has_any : Text → Bool
has_any [] = false
has_any (x ∷ xs) = x == slash || x == 0 || has_any xs

-- The guard of mkdir and create.
unfoldable pub is_bad_name : Text → Bool
unfolding has_any
is_bad_name name = has_any name || text_eq name [] || text_eq name dot || text_eq name dot_dot

pub record NewEntry : Type 0 where
  pub dir : Text
  pub name : Text

pub record SaveRequest : Type 0 where
  pub path : Text
  pub content : Text

pub record RenameRequest : Type 0 where
  pub path : Text
  pub new_name : Text

pub record ChmodRequest : Type 0 where
  pub paths : List Text
  pub mode : Text

-- strconv.ParseUint(s, 8, 32): octal digits, at least one, below 2 ^ 32.
unfoldable pub octal : ℕ → Text → Option ℕ
octal acc [] = some acc
octal acc (x ∷ xs) =
    let acc' = acc * 8 + (x - 48) in
    let rest = octal acc' xs in if ltb x 48 || ltb 55 x || leb (2 ^ 32) acc' then none else rest

unfoldable pub parse_octal : Text → Option ℕ
unfolding octal
parse_octal s = if text_eq s [] then none else octal 0 s

-- A part of the form: its file name, and its bytes, or the error of opening it.
pub record Upload : Type 0 where
  pub filename : Text
  pub content : Result Text

pub record UploadForm : Type 0 where
  pub dir : Text
  pub files : List Upload

module _ {W : Type 0} where
  -- The end of a loop's body: go on, or refuse.
  unfoldable pub step_answer : Text → Result (Unit {0}) × W → Option Answer × W
  step_answer prefix (ok _, w) = (none, w)
  step_answer prefix (err e, w) = (some (refused 500 (prefix ++ e)), w)

  -- A loop over the request's items, which stops at the first refusal.
  unfoldable pub each : {A : Type 0} → (A → W → Option Answer × W) → List A → W → Answer × W
  each step [] w = (success, w)
  each step (p ∷ ps) w =
      let (refusal, w') = step p w in elim refusal [ none ↦ each step ps w' | some a ↦ (a, w') ]

  -- The guards that fileMkdir and fileCreate share, and then the one call.
  unfoldable pub new_entry : (Text → W → Result (Unit {0}) × W) → NewEntry → W → Answer × W
  unfolding answered safe_path is_bad_name join
  new_entry make q w = elim (safe_path q.dir) [
    | none ↦ (bad_name, w)
    | some dir ↦
        if is_bad_name q.name then (bad_name, w) else answered 409 [] (make (join dir q.name) w)
  ]

module _ {W : Type 0} (os : Os W) where
  unfoldable pub file_save : Option SaveRequest → W → Answer × W
  unfolding answered safe_path
  file_save none w = (bad_body, w)
  file_save (some q) w = elim (safe_path q.path) [
    | none ↦ (bad_path, w)
    | some fpath ↦ answered 500 [] (os.write_file fpath q.content 420 w)
  ]

  unfoldable pub file_mkdir : Option NewEntry → W → Answer × W
  unfolding new_entry
  file_mkdir none w = (bad_body, w)
  file_mkdir (some q) w = new_entry (λ target. os.mkdir target 493) q w

  unfoldable pub file_create : Option NewEntry → W → Answer × W
  unfolding new_entry
  file_create none w = (bad_body, w)
  file_create (some q) w = new_entry (λ target. os.create_new target 420) q w

  -- The body of fileDelete's loop.
  unfoldable pub delete_one : Text → W → Option Answer × W
  unfolding safe_path step_answer
  delete_one p w = elim (safe_path p) [
    | none ↦ (some (refused 400 (codes "잘못된 경로: " ++ p)), w)
    | some fpath ↦
        if text_eq fpath root
        then (some (refused 400 (codes "루트 디렉토리는 삭제할 수 없습니다.")), w)
        else step_answer [] (os.remove_all fpath w)
  ]

  unfoldable pub file_delete : Option (List Text) → W → Answer × W
  unfolding each delete_one
  file_delete none w = (bad_body, w)
  file_delete (some paths) w = each delete_one paths w

  -- The end of fileRename: a target that exists is refused.
  unfoldable pub rename_to : Text → Text → W → Answer × W
  unfolding answered
  rename_to fpath target w = elim (os.lstat target w) [
    | ok _ ↦ (refused 409 (codes "같은 이름의 파일이 이미 존재합니다."), w)
    | err _ ↦ answered 500 [] (os.rename fpath target w)
  ]

  unfoldable pub file_rename : Option RenameRequest → W → Answer × W
  unfolding safe_path has_any join dir_of rename_to
  file_rename none w = (bad_body, w)
  file_rename (some q) w = elim (safe_path q.path) [
    | none ↦ (bad_name, w)
    | some fpath ↦
        if has_any q.new_name || text_eq q.new_name []
        then (bad_name, w)
        else rename_to fpath (join (dir_of fpath) q.new_name) w
  ]

  -- The body of fileChmod's loop.
  unfoldable pub chmod_one : ℕ → Text → W → Option Answer × W
  unfolding safe_path step_answer
  chmod_one perm p w = elim (safe_path p) [
    | none ↦ (some (refused 400 (codes "잘못된 경로: " ++ p)), w)
    | some fpath ↦ step_answer [] (os.chmod fpath perm w)
  ]

  unfoldable pub file_chmod : Option ChmodRequest → W → Answer × W
  unfolding each chmod_one parse_octal
  file_chmod none w = (bad_body, w)
  file_chmod (some q) w = elim (parse_octal q.mode) [
    | none ↦ (refused 400 (codes "잘못된 권한 형식입니다 (예: 644)."), w)
    | some perm ↦ each (chmod_one perm) q.paths w
  ]

  -- One part of an upload: the file is created, or emptied, and then written.
  unfoldable pub upload_one : Text → Upload → W → Option Answer × W
  unfolding base join step_answer
  upload_one dir file w = elim file.content [
    | err e ↦ (some (refused 500 (codes "파일 열기 실패: " ++ e)), w)
    | ok content ↦
        let target = join dir (base file.filename) in
        let (made, w') = os.truncate target 438 w in
        elim made [
          | err e ↦ (some (refused 500 (codes "파일 생성 실패: " ++ e)), w')
          | ok _ ↦ step_answer (codes "쓰기 실패: ") (os.append target content w')
        ]
  ]

  unfoldable pub file_upload : Result UploadForm → W → Answer × W
  unfolding each upload_one safe_path
  file_upload (err e) w = (refused 400 (codes "업로드 파싱 실패: " ++ e), w)
  file_upload (ok form) w = elim (safe_path form.dir) [
    | none ↦ (bad_path, w)
    | some dir ↦ elim form.files [
      | [] ↦ (refused 400 (codes "파일이 없습니다."), w)
      | f ∷ fs ↦ each (upload_one dir) (f ∷ fs) w
    ]
  ]
