-- ===== src/Files/Clipboard.antt =====
-- filemanager.go: the clipboard, which is kept in a cookie as JSON (fileClip, filePaste). The
-- functions json.Marshal and json.Unmarshal are the parameters of what uses them.
use pfortainer.Base.{
  not, ◌&&◌, Option, none, some, List, [], ◌∷◌, ◌++◌, Text, codes, text_eq, Result, ok, err, ◌>>=◌,
  if◌then◌else◌,
}
use pfortainer.Http.{Jar, Cookie, cookie}
use pfortainer.FilePath.{safe_path}
use pfortainer.Files.{Answer, success, refused, bad_body}

pub record ClipBoard : Type 0 where
  pub op : Text
  pub paths : List Text

abbrev pub empty_clip : ClipBoard
empty_clip = record { op = []; paths = [] }

abbrev pub clip_cookie_name : Text
clip_cookie_name = codes "fm_clip"

module _ (unmarshal : Text → Option ClipBoard) where
  unfoldable pub get_clipboard : Jar → ClipBoard
  get_clipboard jar = elim (cookie clip_cookie_name jar) [
    | none ↦ empty_clip
    | some v ↦ elim (unmarshal v) [ none ↦ empty_clip | some clip ↦ clip ]
  ]

pub record ClipRequest : Type 0 where
  pub op : Text
  pub paths : List Text

-- The loop of fileClip: the paths resolved, or the answer to the first that is refused.
unfoldable pub clean_paths : List Text → Result (List Text)
unfolding safe_path
clean_paths [] = ok []
clean_paths (p ∷ ps) = elim (safe_path p) [
  | none ↦ err (codes "잘못된 경로: " ++ p)
  | some cp ↦ clean_paths ps >>= λ rest. ok (cp ∷ rest)
]

module _ (marshal : ClipBoard → Text) where
  -- MaxAge 0: the browser keeps the cookie for its session.
  unfoldable pub set_clipboard_cookie : ClipBoard → Cookie
  set_clipboard_cookie clip = record {
    name = clip_cookie_name;
    value = marshal clip;
    max_age = some 0;
  }

  unfoldable pub file_clip : Option ClipRequest → Answer × Option Cookie
  unfolding clean_paths set_clipboard_cookie
  file_clip none = (bad_body, none)
  file_clip (some q) =
      if not (text_eq q.op (codes "copy")) && not (text_eq q.op (codes "cut"))
      then (refused 400 (codes "op는 copy 또는 cut이어야 합니다."), none)
      else elim (clean_paths q.paths) [
        | err e ↦ (refused 400 e, none)
        | ok clean ↦ (success, some (set_clipboard_cookie record { op = q.op; paths = clean }))
      ]

unfoldable pub clear_clipboard_cookie : Cookie
clear_clipboard_cookie = record { name = clip_cookie_name; value = []; max_age = none }
