-- ===== src/Hostd/Shares/Exports.antt =====
-- hostd.go: the NFS exports. The path of a request is tested, its line is written.
use pfortainer.Base.{
  ◌≡◌, refl, ap, ◌∙◌, true, false, not, ◌||◌, Option, none, some, List, [], ◌∷◌, ◌++◌, Text, codes,
  text_eq, has_prefix, fields, words_from, split-append, split_one, split, trim, trim_left, Lacks,
  if◌then◌else◌,
}
use pfortainer.Http.{Response, http_error}
use pfortainer.Hostd.{Request, bad_request}
use pfortainer.Hostd.Shares.{
  ConfDir, newline, is_file_name, checked_path, posted, write_conf, removed,
}

pub record NfsExport : Type 0 where
  pub name : Text
  pub path : Text
  pub line : Text
  pub clients : Text

abbrev nfs_exports_dir : Text
nfs_exports_dir = codes "/etc/exports.d"

abbrev pub export_path : Text → Text
export_path name = nfs_exports_dir ++ (b'/' ∷ (name ++ codes ".exports"))

unfoldable pub export_content : Text → Text
export_content line = codes "# managed by pfortainer\n" ++ (line ++ newline ∷ [])

-- strings.Join(ws, " ").
unfoldable pub join_words : List Text → Text
join_words [] = []
join_words (w ∷ []) = w
join_words (w ∷ v ∷ ws) = w ++ 32 ∷ join_words (v ∷ ws)

-- One file of /nfs/status: its first line that is neither empty nor a comment.
unfoldable pub read_export : Text → List Text → Option NfsExport
unfolding join_words
read_export name [] = none
read_export name (l ∷ ls) =
    let line = trim l in
    let rest = read_export name ls in
    if text_eq line [] || has_prefix line (codes "#") then rest else elim (fields line) [
      | [] ↦ none
      | f ∷ fs ↦ some record { name = name; path = f; line = line; clients = join_words fs }
    ]

unfoldable pub parse_export : Text → Text → Option NfsExport
unfolding read_export
parse_export name content = read_export name (split content newline)

module _ {W : Type 0} (dir : ConfDir W) where
  unfoldable pub nfs_export_body : NfsExport → W → Response × W
  unfolding is_file_name checked_path write_conf export_content
  nfs_export_body e w =
      if not (is_file_name 63 e.name)
      then (http_error 400 (codes "invalid export name"), w)
      else elim (checked_path e.path) [
        | none ↦ (http_error 400 (codes "invalid path"), w)
        | some _ ↦
            write_conf dir (codes "exports.d mkdir: ") (export_path e.name) (export_content e.line)
              w
      ]

  unfoldable pub nfs_export : Request NfsExport → W → Response × W
  unfolding posted nfs_export_body
  nfs_export q w = posted q nfs_export_body w

  unfoldable pub nfs_export_delete_body : Text → W → Response × W
  unfolding is_file_name
  nfs_export_delete_body name w =
      if not (is_file_name 63 name)
      then (bad_request, w)
      else removed (dir.remove (export_path name) w)

  unfoldable pub nfs_export_delete : Request Text → W → Response × W
  unfolding posted nfs_export_delete_body
  nfs_export_delete q w = posted q nfs_export_delete_body w

no_comment :
    (name l : Text) (ls : List Text) (f : Text) (fs : List Text)
    → (text_eq (trim l) [] || has_prefix (trim l) (codes "#")) ≡ false
    → fields (trim l) ≡ f ∷ fs
    → read_export name (l ∷ ls)
      ≡ some record { name = name; path = f; line = trim l; clients = join_words fs }
unfolding read_export
no_comment name l ls f fs h e = rw (h, read_export, e) refl

comment_first :
    (name : Text) (line : Text)
    → parse_export name (export_content line)
      ≡ read_export name (split (line ++ newline ∷ []) newline)
unfolding parse_export export_content read_export split trim trim_left text_eq has_prefix
comment_first name line = refl

not_skipped :
    (t f : Text) (fs : List Text)
    → has_prefix t (codes "#") ≡ false
    → fields t ≡ f ∷ fs
    → (text_eq t [] || has_prefix t (codes "#")) ≡ false
unfolding text_eq words_from
not_skipped [] f fs h e = absurd (cc)
not_skipped (x ∷ t) f fs h e = h

written_line :
    (line : Text) → Lacks newline line → split (line ++ newline ∷ []) newline ≡ line ∷ [] ∷ []
unfolding split
written_line line h =
    split-append newline line [] ∙ ap (λ t. t ++ [] ∷ []) (split_one newline line h)

module _ {W : Type 0} (dir : ConfDir W) where
  -- For a valid name, a path that passes the test and a line without line breaks that has fields
  -- and is no comment, /nfs/export writes the line to the file of the name, and /nfs/status reads
  -- from it the first field of the line as the exported path, whatever path was tested.
  pub export_reads_line :
      (e : NfsExport) (w : W) (clean f : Text) (fs : List Text)
      → is_file_name 63 e.name ≡ true
      → checked_path e.path ≡ some clean
      → Lacks newline e.line
      → has_prefix (trim e.line) (codes "#") ≡ false
      → fields (trim e.line) ≡ f ∷ fs
      → (nfs_export_body dir e w
          ≡ write_conf dir
              (codes "exports.d mkdir: ")
              (export_path e.name)
              (export_content e.line)
              w)
        × (parse_export e.name (export_content e.line)
            ≡ some record { name = e.name; path = f; line = trim e.line; clients = join_words fs })
  unfolding nfs_export_body
  export_reads_line e w clean f fs named checked one_line no_hash parts = (
    rw (ap not named, nfs_export_body, checked) refl,
    comment_first e.name e.line
        ∙ (ap (read_export e.name) (written_line e.line one_line)
            ∙ no_comment e.name e.line ([] ∷ []) f fs (not_skipped (trim e.line) f fs no_hash parts)
                parts),
  )
