-- ===== src/Files/Copy.antt =====
-- filemanager.go: filePaste and the copying below it. copyDir recurs on fuel; none is the lack of it.
-- An entry's Info is the one that ReadDir lists: an entry that vanishes meanwhile is left out.
use pfortainer.Base.{
  ℕ, zero, suc, Bool, Option, none, some, List, [], ◌∷◌, ◌++◌, Text, codes, text_eq, Result, ok,
  err, if◌then◌else◌,
}
use pfortainer.Http.{Jar, Cookie}
use pfortainer.FilePath.{join, base, safe_path}
use pfortainer.Files.{Info, Os, Answer, success, refused, bad_body}
use pfortainer.Files.Clipboard.{ClipBoard, get_clipboard, clear_clipboard_cookie}

abbrev pub Step : Type 0 → Type 0
Step W = Result (Unit {0}) × W

module _ {W : Type 0} (os : Os W) where
  -- The source is open before the target is emptied, and read after.
  unfoldable pub copy_file : Text → Text → ℕ → W → Step W
  copy_file src dst mode w = elim (os.open_file src w) [
    | err e ↦ (err e, w)
    | ok _ ↦
        let (made, w') = os.truncate dst mode w in
        elim made [
          | err e ↦ (err e, w')
          | ok _ ↦ elim (os.read_file src w') [ err e ↦ (err e, w') | ok t ↦ os.append dst t w' ]
        ]
  ]

  unfoldable pub then_entries : Option (Step W) → (W → Option (Step W)) → Option (Step W)
  then_entries none next = none
  then_entries (some (err e, w)) next = some (err e, w)
  then_entries (some (ok _, w)) next = next w

  -- The loop of copyDir, over the entries; `rec` is copyDir itself.
  unfoldable pub copy_entries :
      (Text → Text → ℕ → W → Option (Step W)) → Text → Text → List Info → W → Option (Step W)
  unfolding copy_file join then_entries
  copy_entries rec src dst [] w = some (ok tt, w)
  copy_entries rec src dst (e ∷ es) w =
      let s = join src e.name in
      let d = join dst e.name in
      let into = rec s d e.mode w in
      then_entries (if e.is_dir then into else some (copy_file s d e.mode w))
        (copy_entries rec src dst es)

  unfoldable pub copy_dir : ℕ → Text → Text → ℕ → W → Option (Step W)
  unfolding copy_entries
  copy_dir zero src dst mode w = none
  copy_dir (suc fuel) src dst mode w =
      let (made, w') = os.mkdir dst mode w in
      elim made [
        | err e ↦ some (err e, w')
        | ok _ ↦ elim (os.read_dir src w') [
          | err e ↦ some (err e, w')
          | ok es ↦ copy_entries (copy_dir fuel) src dst es w'
        ]
      ]

  unfoldable pub copy_path : ℕ → Text → Text → W → Option (Step W)
  unfolding copy_dir copy_file
  copy_path fuel src dst w = elim (os.lstat src w) [
    | err e ↦ some (err e, w)
    | ok info ↦
        let into = copy_dir fuel src dst info.mode w in
        if info.is_dir then into else some (copy_file src dst info.mode w)
  ]

  abbrev failed : Text → Step W → Option Answer × W
  failed prefix (ok _, w) = (none, w)
  failed prefix (err e, w) = (some (refused 500 (prefix ++ e)), w)

  -- The body of filePaste's loop.
  unfoldable pub paste_one : ℕ → Bool → Text → Text → W → Option (Option Answer × W)
  unfolding base join copy_path
  paste_one fuel is_cut dest src w =
      let target = join dest (base src) in
      let copied = copy_path fuel src target w in
      if is_cut
      then some (failed (codes "이동 실패: ") (os.rename src target w))
      else elim copied [ none ↦ none | some r ↦ some (failed (codes "복사 실패: ") r) ]

  unfoldable pub paste_all : ℕ → Bool → Text → List Text → W → Option (Answer × W)
  unfolding paste_one
  paste_all fuel is_cut dest [] w = some (success, w)
  paste_all fuel is_cut dest (src ∷ srcs) w = elim (paste_one fuel is_cut dest src w) [
    | none ↦ none
    | some (some a, w') ↦ some (a, w')
    | some (none, w') ↦ paste_all fuel is_cut dest srcs w'
  ]

-- The answer, the state, and the cookie that the response sets.
abbrev pub Pasted : Type 0 → Type 0
Pasted W = Answer × W × Option Cookie

abbrev refuse {ℓ} : {W : Type ℓ} → ℕ → Text → W → Answer × W × Option Cookie
refuse status e w = (refused status e, w, none)

-- A cut whose moves all succeeded clears the clipboard.
abbrev finished : {W : Type 0} → Bool → Answer × W → Pasted W
finished is_cut (success, w) = (success, w, if is_cut then some clear_clipboard_cookie else none)
finished is_cut (refused status e, w) = (refused status e, w, none)

module _ {W : Type 0} (os : Os W) (unmarshal : Text → Option ClipBoard) where
  unfoldable pub file_paste : ℕ → Option Text → Jar → W → Option (Pasted W)
  unfolding safe_path get_clipboard paste_all
  file_paste fuel none jar w = some (bad_body, w, none)
  file_paste fuel (some dir) jar w = elim (safe_path dir) [
    | none ↦ some (refuse 400 (codes "잘못된 대상 경로입니다.") w)
    | some dest ↦
        let clip = get_clipboard unmarshal jar in
        let is_cut = text_eq clip.op (codes "cut") in
        elim clip.paths [
          | [] ↦ some (refuse 400 (codes "클립보드가 비어 있습니다.") w)
          | p ∷ ps ↦ elim (paste_all os fuel is_cut dest (p ∷ ps) w) [
            | none ↦ none
            | some r ↦ some (finished is_cut r)
          ]
        ]
  ]
