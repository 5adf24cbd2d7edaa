-- ===== src/Hostd/Smb.antt =====
-- hostd.go: /smb/setup, which adds the line that includes the share files to smb4.conf, and the test
-- of /smb/status for that line.
pub mod Setup
mod Tests
use pfortainer.Base.{
  Bool, not, Option, none, some, [], ◌∷◌, ◌++◌, Text, codes, contains, if◌then◌else◌,
}
use pfortainer.Http.{Response, http_error, json}
use pfortainer.Hostd.{Request}

abbrev pub include_line : Text
include_line = codes "include = /usr/local/etc/smb4.conf.d/*.conf"

-- `setupOK`, which the setup tests too.
unfoldable pub setup_ok : Text → Bool
unfolding contains
setup_ok main_conf = contains main_conf (codes "shares.d")

-- What the file system answers: to reading smb4.conf, to opening it, to writing to it.
pub record SmbFaults : Type 0 where
  pub read_error : Option Text
  pub open_error : Option Text
  pub write_error : Option Text

abbrev written : Option Text → Text → Text × Response
written (some e) conf = (conf, http_error 500 e)
written none conf = (
  conf ++ b'\n' ∷ (include_line ++ b'\n' ∷ []),
  json (codes "{\"message\":\"include 줄 추가 완료. Samba를 reload해주세요.\"}"),
)

abbrev append_line : SmbFaults → Text → Text × Response
append_line faults conf = elim faults.open_error [
  | some e ↦ (conf, http_error 500 (codes "smb4.conf 쓰기 실패: " ++ e))
  | none ↦ written faults.write_error conf
]

abbrev set_up : SmbFaults → Text → Text × Response
set_up faults conf = elim faults.read_error [
  | some e ↦ (conf, http_error 500 (codes "smb4.conf 읽기 실패: " ++ e))
  | none ↦
      if setup_ok conf
      then (conf, json (codes "{\"message\":\"이미 설정되어 있습니다.\"}"))
      else append_line faults conf
]

-- The content of smb4.conf after the request, and the answer; a write that fails writes nothing.
unfoldable pub smb_setup : SmbFaults → (is_post : Bool) → Text → Text × Response
unfolding setup_ok
smb_setup faults is_post conf =
    if not is_post then (conf, http_error 405 (codes "POST only")) else set_up faults conf
