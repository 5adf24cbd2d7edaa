-- ===== src/Files/Tests.antt =====
-- Runs of the file manager on a disk in memory.
use pfortainer.Base.{
  ℕ, ◌<◌, ◌≡◌, refl, ap, ◌≢◌, ◌⊎◌, Bool, true, false, not, Option, none, some, List, [], ◌∷◌, ◌++◌,
  arith, Text, codes, text_eq, has_prefix, last_index, split, elem_text, text_eq_iff, Lacks, Result,
  ok, err, length, keep, any, All, ◌==◌, if◌then◌else◌,
}
use pfortainer.Http.{Cookie, set_cookie}
use pfortainer.FilePath.{root, names, push, print, rooted, resolve, clean, join, IsName}
use pfortainer.Files.{success, refused}
use pfortainer.Files.Change.{NewEntry, RenameRequest, file_delete}
use pfortainer.Files.Scope.{file_delete_below_root}
use pfortainer.Files.Clipboard.{ClipBoard, file_clip}
use pfortainer.Files.Pasting.{NeedsQuotes, clip_then_paste}
use pfortainer.Files.Listing.{file_icon, ext, icon_of}
use pfortainer.Files.Copy.{Step, file_paste, copy_file, copy_dir, copy_entries, then_entries}
use pfortainer.Files.Copying.{copy_file_lem, copy_dir_returns, rooted_grows}
use pfortainer.Files.Memory.{
  Disk, memory, memory-Writes, memory-Bounded, limit, list_dir, children, entry_in,
}

abbrev start : Disk
start = record {
  content =
      λ p. if text_eq p (codes "/a/f") then ok (codes "hello") else err (codes "no such file");
  dirs = codes "/a" ∷ codes "/" ∷ [];
}

-- The result, and the number of directories then.
abbrev outcome : Option (Step Disk) → Option (Result (Unit {0}) × ℕ)
outcome none = none
outcome (some (r, w)) = some (r, length w.dirs)

-- A directory pasted into itself ends by the limit on paths alone.
copy_into_itself :
    outcome (copy_dir memory 60 (codes "/a") (codes "/a/a") 493 start)
    ≡ some (err (codes "file name too long"), 22)
unfolding copy_dir copy_entries then_entries memory list_dir children entry_in join clean names
    resolve push print rooted split text_eq elem_text
copy_into_itself = refl

abbrev wanted : NewEntry
wanted = record { dir = codes "/a/../b"; name = codes "new" }

abbrev renamed : RenameRequest
renamed = record { path = codes "/a"; new_name = codes "b" }

-- The root is among the directories.
abbrev HasRoot : Disk → Type 0
HasRoot w = elem_text root w.dirs ≡ true

elem-keep :
    (q : Text → Bool) (x : Text) (ds : List Text)
    → q x ≡ true
    → elem_text x ds ≡ true
    → elem_text x (keep q ds) ≡ true
unfolding elem_text
elem-keep q x [] h e = absurd (cc)
elem-keep q x (d ∷ ds) h e = ground (arith, elem-keep q x ds h, text_eq_iff x d)

long_prefix : (p : Text) → 1 < length p → has_prefix root p ≡ false
unfolding has_prefix
long_prefix [] h = absurd (omega arith)
long_prefix (x ∷ []) h = absurd (omega arith)
long_prefix (x ∷ y ∷ p) h = ground arith

long_name : (s : List Text) → All IsName s → s ≢ [] → 1 < length (rooted s)
unfolding rooted
long_name [] h ne = absurd (ne refl)
long_name (c ∷ []) h ne = rooted_grows [] c h.0
long_name (c ∷ d ∷ s) h ne =
    omega (arith, rooted_grows (d ∷ s) c h.0, long_name (d ∷ s) h.1 (λ e. cc))

root_stays :
    (s : List Text) (w : Disk)
    → All IsName s
    → s ≢ []
    → HasRoot w
    → HasRoot (memory.remove_all (rooted s) w).1
unfolding memory
root_stays s w h ne r =
    let no : has_prefix root (rooted s) ≡ false = long_prefix (rooted s) (long_name s h ne) in
    elem-keep (λ d. not (has_prefix d (rooted s))) root w.dirs (ap not no) r

file_delete_below_root_example :
    HasRoot (file_delete memory (some (codes "/a" ∷ codes "/.." ∷ [])) start).1
    × (((file_delete memory (some (codes "/a" ∷ codes "/.." ∷ [])) start).0 ≢ success)
        ⊎ All (λ p. names p ≢ []) (codes "/a" ∷ codes "/.." ∷ []))
unfolding elem_text text_eq
file_delete_below_root_example =
    file_delete_below_root memory HasRoot root_stays (codes "/a" ∷ codes "/.." ∷ []) start refl

-- A decoder that reads a clipboard where there is a quote.
abbrev one_clip : ClipBoard
one_clip = record { op = codes "copy"; paths = codes "/a" ∷ [] }

abbrev decode : Text → Option ClipBoard
decode t = if any (λ x. x == b'"') t then some one_clip else none

no_quote : (t : Text) → Lacks b'"' t → any (λ x. x == b'"') t ≡ false
no_quote [] h = refl
no_quote (x ∷ t) h = ground (arith, no_quote t h.1, h.0)

decode-NeedsQuotes : NeedsQuotes decode
decode-NeedsQuotes t c h e = absurd (ground (arith, no_quote t h))

abbrev encode : ClipBoard → Text
encode clip = codes "{\"Op\":\"" ++ (clip.op ++ codes "\"}")

clip_then_paste_example :
    (c : Cookie) × (file_clip encode (some record { op = codes "copy"; paths = codes "/a" ∷ [] })
      ≡ (success, some c))
    × (file_paste memory decode 60 (some (codes "/b")) (set_cookie c []) start
        ≡ some (refused 400 (codes "클립보드가 비어 있습니다."), start, none))
unfolding text_eq
clip_then_paste_example =
    clip_then_paste encode decode decode-NeedsQuotes memory
      record { op = codes "copy"; paths = codes "/a" ∷ [] } [] 60 (codes "/b") start refl

-- A file copied onto itself is emptied; copied elsewhere, it is there.
copy_file_lem_example :
    memory.read_file (codes "/a/f") (copy_file memory (codes "/a/f") (codes "/a/f") 420 start).1 ≡ (
      if text_eq (codes "/a/f") (codes "/a/f")
      then ok (if text_eq (codes "/a/f") (codes "/a/f") then [] else codes "hello")
      else memory.read_file (codes "/a/f") start)
unfolding memory copy_file text_eq
copy_file_lem_example =
    copy_file_lem memory memory-Writes (codes "/a/f") (codes "/a/f") 420 start (codes "hello") refl
      refl (codes "/a/f")

copy_dir_returns_example :
    (r : Step Disk) × (copy_dir memory 41 (rooted (codes "a" ∷ [])) (codes "/a/a") 493 start
      ≡ some r)
copy_dir_returns_example =
    copy_dir_returns memory limit memory-Bounded 40 (codes "a" ∷ []) (codes "/a/a") 493 start
      (
        record {
          not_empty = λ e. cc;
          not_dot = λ e. cc;
          not_dot_dot = λ e. cc;
          no_slash = omega arith;
        },
        tt,
      )
      (omega arith)

icon_of_archive : file_icon (codes "backup.TAR") false false ≡ codes "bi-file-zip"
unfolding file_icon ext icon_of last_index elem_text text_eq
icon_of_archive = refl
