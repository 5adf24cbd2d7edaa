-- ===== src/Files/View.antt =====
-- filemanager.go: fileEdit and fileDownload, which show one file.
use pfortainer.Base.{
  ℕ, ◌^◌, Bool, true, false, none, some, [], ◌++◌, Text, codes, text_eq, decimal, ok, err, any, ltb,
  ◌==◌, if◌then◌else◌,
}
use pfortainer.FilePath.{base, safe_path}
use pfortainer.Files.{Os}
use pfortainer.Files.Listing.{Listed, shown, failed, ext}

pub record FileEditVm : Type 0 where
  pub file_path : Text
  pub content : Text
  pub read_only : Bool
  pub too_large : Bool
  pub binary : Bool

abbrev pub max_size : ℕ
max_size = 2 ^ 20

unfoldable pub is_binary : Text → Bool
is_binary b = any (λ c. c == 0) b

abbrev edit_vm : Text → FileEditVm
edit_vm path = record {
  file_path = path;
  content = [];
  read_only = false;
  too_large = false;
  binary = false;
}

pub record Download : Type 0 where
  pub content_type : Text
  pub disposition : Text
  pub length_header : Text
  pub body : Text

module _ {W : Type 0} (os : Os W) where
  unfoldable pub file_edit : Text → W → Listed FileEditVm
  unfolding safe_path is_binary
  file_edit raw w = elim (safe_path raw) [
    | none ↦ failed 400 (codes "잘못된 경로입니다.")
    | some path ↦ elim (os.stat path w) [
      | err e ↦ failed 404 (codes "파일을 찾을 수 없습니다.")
      | ok info ↦
          if ltb max_size info.size
          then shown (record (edit_vm path) { too_large = true })
          else elim (os.read_file path w) [
            | err e ↦ failed 500 (codes "파일을 읽을 수 없습니다: " ++ e)
            | ok t ↦ shown (
                if is_binary t
                then record (edit_vm path) { binary = true }
                else record (edit_vm path) { content = t })
          ]
    ]
  ]

  -- `mime_type` is mime.TypeByExtension.
  unfoldable pub file_download : (Text → Text) → Text → W → Listed Download
  unfolding safe_path base ext
  file_download mime_type raw w = elim (safe_path raw) [
    | none ↦ failed 400 (codes "잘못된 경로입니다.")
    | some path ↦ elim (os.stat path w) [
      | err e ↦ failed 404 (codes "파일을 찾을 수 없습니다.")
      | ok info ↦
          let type = mime_type (ext path) in
          if info.is_dir then failed 404 (codes "파일을 찾을 수 없습니다.") else elim (os.open_file path w) [
            | err e ↦ failed 500 (codes "파일을 열 수 없습니다.")
            | ok _ ↦ shown record {
              content_type = if text_eq type [] then codes "application/octet-stream" else type;
              disposition = codes "attachment; filename=\"" ++ (base path ++ codes "\"");
              length_header = decimal info.size;
              body = elim (os.read_file path w) [ ok t ↦ t | err _ ↦ [] ];
            }
          ]
    ]
  ]
