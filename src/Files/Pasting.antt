-- ===== src/Files/Pasting.antt =====
-- filemanager.go: what fileClip keeps in the cookie, and what filePaste finds there.
use pfortainer.Base.{
  ℕ, ◌≡◌, refl, ◌≢◌, inl, inr, true, false, not, ◌&&◌, Option, none, some, List, [], ◌∷◌, map,
  arith, Text, codes, text_eq, text_eq_refl, Lacks, ok, keep, All-keep, Option-cases,
}
use pfortainer.Http.{Jar, Cookie, cookie, set_cookie, valid_cookie_byte}
use pfortainer.FilePath.{names, rooted}
use pfortainer.FilePath.Resolve.{safe_path_lem}
use pfortainer.Files.{Os, success, refused}
use pfortainer.Files.Clipboard.{
  ClipBoard, clip_cookie_name, get_clipboard, ClipRequest, clean_paths, set_clipboard_cookie,
  file_clip,
}
use pfortainer.Files.Copy.{file_paste}

valid_byte-quote : (b : ℕ) → valid_cookie_byte b ≡ true → b ≢ b'"'
unfolding valid_cookie_byte
valid_byte-quote b h = ground arith

cookie_here : (n v : Text) (jar : Jar) → cookie n ((n, v) ∷ jar) ≡ some v
unfolding cookie
cookie_here n v jar = rw (text_eq_refl n) refl

-- What is read back has lost its quotes.
read_back :
    (c : Cookie) (age : ℕ) (jar : Jar)
    → c.max_age ≡ some age
    → cookie c.name (set_cookie c jar) ≡ some (keep valid_cookie_byte c.value)
unfolding set_cookie
read_back c age jar h =
    rw (h, set_cookie)
      (cookie_here c.name (keep valid_cookie_byte c.value)
        (keep (λ entry. not (text_eq entry.0 c.name)) jar))

Lacks-quote : (v : Text) → Lacks b'"' (keep valid_cookie_byte v)
Lacks-quote v = All-keep (λ x. x ≢ b'"') valid_cookie_byte v (λ b h. valid_byte-quote b h)

clean_paths_lem : (ps : List Text) → clean_paths ps ≡ ok (map (λ p. rooted (names p)) ps)
unfolding clean_paths
clean_paths_lem [] = refl
clean_paths_lem (p ∷ ps) = rw (safe_path_lem p, clean_paths) (rw (clean_paths_lem ps) refl)

-- The documented strictness of json.Unmarshal: no text without a quote names the field Paths.
abbrev pub NeedsQuotes : (Text → Option ClipBoard) → Type 0
NeedsQuotes unmarshal =
    (t : Text) (c : ClipBoard) → Lacks b'"' t → unmarshal t ≡ some c → c.paths ≡ []

module _ (marshal : ClipBoard → Text) (unmarshal : Text → Option ClipBoard)
    (strict : NeedsQuotes unmarshal) where
  clip_lost :
      (clip : ClipBoard) (jar : Jar)
      → (get_clipboard unmarshal (set_cookie (set_clipboard_cookie marshal clip) jar)).paths ≡ []
  unfolding get_clipboard set_clipboard_cookie
  clip_lost clip jar =
      let v = keep valid_cookie_byte (marshal clip) in
      let back : cookie clip_cookie_name (set_cookie (set_clipboard_cookie marshal clip) jar)
          ≡ some v =
        read_back (set_clipboard_cookie marshal clip) 0 jar refl in
      elim (Option-cases (unmarshal v)) [
        | inl n ↦ rw (back, get_clipboard, n) refl
        | inr (c, e) ↦ rw (back, get_clipboard, e) (strict v c (Lacks-quote (marshal clip)) e)
      ]

  file_clip_ok :
      (q : ClipRequest)
      → (not (text_eq q.op (codes "copy")) && not (text_eq q.op (codes "cut"))) ≡ false
      → file_clip marshal (some q) ≡ (
        success,
        some (
            set_clipboard_cookie marshal
              record { op = q.op; paths = map (λ p. rooted (names p)) q.paths }),
      )
  unfolding file_clip
  file_clip_ok q h = rw (h, file_clip, clean_paths_lem q.paths) refl

  module _ {W : Type 0} (os : Os W) where
    paste_lost :
        (clip : ClipBoard) (jar : Jar) (fuel : ℕ) (dir : Text) (w : W)
        → file_paste os unmarshal fuel
            (some dir)
            (set_cookie (set_clipboard_cookie marshal clip) jar)
            w
          ≡ some (refused 400 (codes "클립보드가 비어 있습니다."), w, none)
    unfolding file_paste
    paste_lost clip jar fuel dir w = rw (safe_path_lem dir, file_paste, clip_lost clip jar) refl

    -- With an operation that fileClip accepts it answers with success and a cookie, and filePaste
    -- from a browser that holds this cookie answers that the clipboard is empty and changes
    -- nothing, whatever was clipped: the cookie loses its quotes, and json.Unmarshal reads no paths
    -- from a text without quotes.
    pub clip_then_paste :
        (q : ClipRequest) (jar : Jar) (fuel : ℕ) (dir : Text) (w : W)
        → (not (text_eq q.op (codes "copy")) && not (text_eq q.op (codes "cut"))) ≡ false
        → (c : Cookie) × (file_clip marshal (some q) ≡ (success, some c))
          × (file_paste os unmarshal fuel (some dir) (set_cookie c jar) w
              ≡ some (refused 400 (codes "클립보드가 비어 있습니다."), w, none))
    clip_then_paste q jar fuel dir w h =
        let clip : ClipBoard = record { op = q.op; paths = map (λ p. rooted (names p)) q.paths } in
        (set_clipboard_cookie marshal clip, file_clip_ok q h, paste_lost clip jar fuel dir w)
