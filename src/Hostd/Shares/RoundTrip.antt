-- ===== src/Hostd/Shares/RoundTrip.antt =====
-- hostd.go: parseSMBConf reads back what smbShareToConf wrote.
use pfortainer.Base.{
  ◌≡◌, refl, ap, ◌∙◌, inl, inr, Bool, List, [], ◌∷◌, ◌++◌, append_assoc, arith, Text, codes,
  text_eq, has_prefix, split-append, split_one, cut, split, trim, trim_left, Lacks, Lacks-append,
  drop, All, All-append, Bool-cases,
}
use pfortainer.Hostd.Shares.{
  newline, SmbShare, no_share, set_key, parse_trimmed, parse_lines, parse_smb_conf, bool_str,
  option_line, optional_line, conf_lines, unlines, smb_share_to_conf,
}
use pfortainer.Hostd.Shares.Lines.{
  IsValue, IsOptional, option_line_lem, name_line, parse_lines-append, path-IsKey, comment-IsKey,
  users-IsKey, read_only-IsKey, browseable-IsKey, guest-IsKey, bool_str-IsValue, bool_val-bool_str,
  comment_line, users_line,
}

split-unlines :
    (ls : List Text) → All (Lacks newline) ls → split (unlines ls) newline ≡ ls ++ [] ∷ []
unfolding unlines split
split-unlines [] h = refl
split-unlines (l ∷ ls) h =
    split-append newline l (unlines ls)
    ∙ (ap (λ t. t ++ split (unlines ls) newline) (split_one newline l h.0)
        ∙ ap (λ t. l ∷ t) (split-unlines ls h.1))

option_Lacks : (k v : Text) → Lacks newline k → Lacks newline v → Lacks newline (option_line k v)
option_Lacks k v hk hv = (
  (omega arith),
  Lacks-append newline k (codes " = " ++ v) hk
      (Lacks-append newline (codes " = ") v (omega arith) hv),
)

optional_one_line : (v : Text) → IsOptional v → Lacks newline v
optional_one_line v (inl e) = rw e tt
optional_one_line v (inr value) = value.one_line

optional_Lacks :
    (k v : Text) → Lacks newline k → IsOptional v → All (Lacks newline) (optional_line k v)
optional_Lacks k v hk o = elim (Bool-cases (text_eq v [])) [
  | inl e ↦ rw e tt
  | inr e ↦ rw e (option_Lacks k v hk (optional_one_line v o), tt)
]

-- A share that its file can express.
pub record IsWritable (s : SmbShare) : Type 0 where
  pub name : Lacks newline s.name
  pub path : IsValue s.path
  pub comment : IsOptional s.comment
  pub valid_users : IsOptional s.valid_users

conf_lines-Lacks : (s : SmbShare) → IsWritable s → All (Lacks newline) (conf_lines s)
unfolding conf_lines
conf_lines-Lacks s h = (
  ((omega arith), Lacks-append newline s.name (codes "]") h.name (omega arith)),
  (
    option_Lacks (codes "path") s.path path-IsKey.value.one_line h.path.one_line,
    All-append (Lacks newline) (optional_line (codes "comment") s.comment)
        (optional_line (codes "valid users") s.valid_users ++ flags)
        (optional_Lacks (codes "comment") s.comment comment-IsKey.value.one_line h.comment)
        (All-append (Lacks newline) (optional_line (codes "valid users") s.valid_users) flags
          (optional_Lacks (codes "valid users") s.valid_users users-IsKey.value.one_line
            h.valid_users)
          (
            option_Lacks (codes "read only") (bool_str s.read_only) read_only-IsKey.value.one_line
                (bool_str-IsValue s.read_only).one_line,
            (
              option_Lacks (codes "browseable") (bool_str s.browseable)
                  browseable-IsKey.value.one_line (bool_str-IsValue s.browseable).one_line,
              (
                option_Lacks (codes "guest ok") (bool_str s.guest_ok) guest-IsKey.value.one_line
                    (bool_str-IsValue s.guest_ok).one_line,
                tt,
              ),
            ),
          )),
  ),
)
  where
    flags : List Text
    flags =
        option_line (codes "read only") (bool_str s.read_only)
        ∷ option_line (codes "browseable") (bool_str s.browseable)
        ∷ option_line (codes "guest ok") (bool_str s.guest_ok)
        ∷ []

path_line :
    (v : Text) (s : SmbShare)
    → IsValue v
    → parse_trimmed (trim (option_line (codes "path") v)) s ≡ record s { path = v }
unfolding set_key text_eq
path_line v s value = option_line_lem (codes "path") v s path-IsKey value

read_only_line :
    (b : Bool) (s : SmbShare)
    → parse_trimmed (trim (option_line (codes "read only") (bool_str b))) s
      ≡ record s { read_only = b }
unfolding set_key text_eq
read_only_line b s =
    option_line_lem (codes "read only") (bool_str b) s read_only-IsKey (bool_str-IsValue b)
    ∙ ap (λ u. record s { read_only = u }) (bool_val-bool_str b)

browseable_line :
    (b : Bool) (s : SmbShare)
    → parse_trimmed (trim (option_line (codes "browseable") (bool_str b))) s
      ≡ record s { browseable = b }
unfolding set_key text_eq
browseable_line b s =
    option_line_lem (codes "browseable") (bool_str b) s browseable-IsKey (bool_str-IsValue b)
    ∙ ap (λ u. record s { browseable = u }) (bool_val-bool_str b)

guest_line :
    (b : Bool) (s : SmbShare)
    → parse_trimmed (trim (option_line (codes "guest ok") (bool_str b))) s
      ≡ record s { guest_ok = b }
unfolding set_key text_eq
guest_line b s =
    option_line_lem (codes "guest ok") (bool_str b) s guest-IsKey (bool_str-IsValue b)
    ∙ ap (λ u. record s { guest_ok = u }) (bool_val-bool_str b)

empty_line : (s : SmbShare) → parse_lines ([] ∷ []) s ≡ s
unfolding parse_lines parse_trimmed trim trim_left has_prefix cut
empty_line s = refl

-- The three lines at the end, and the empty rest after the last line break.
abbrev flags : SmbShare → List Text
flags s =
    option_line (codes "read only") (bool_str s.read_only)
    ∷ option_line (codes "browseable") (bool_str s.browseable)
    ∷ option_line (codes "guest ok") (bool_str s.guest_ok)
    ∷ []

flag_lines :
    (s r : SmbShare)
    → parse_lines (flags s ++ [] ∷ []) r
      ≡ record r { read_only = s.read_only; browseable = s.browseable; guest_ok = s.guest_ok }
unfolding parse_lines
flag_lines s r =
    let r1 : SmbShare = record r { read_only = s.read_only } in
    let r2 : SmbShare = record r1 { browseable = s.browseable } in
    let r3 : SmbShare = record r2 { guest_ok = s.guest_ok } in
    ap (λ u. parse_lines (drop 1 (flags s) ++ [] ∷ []) u) (read_only_line s.read_only r)
    ∙ (ap (λ u. parse_lines (drop 2 (flags s) ++ [] ∷ []) u) (browseable_line s.browseable r1)
        ∙ (ap (λ u. parse_lines ([] ∷ []) u) (guest_line s.guest_ok r2) ∙ empty_line r3))

conf_lines_read : (s : SmbShare) → IsWritable s → parse_lines (conf_lines s ++ [] ∷ []) no_share ≡ s
unfolding conf_lines parse_lines
conf_lines_read s h =
    let s1 : SmbShare = record no_share { name = s.name } in
    let s2 : SmbShare = record s1 { path = s.path } in
    let s3 : SmbShare = record s2 { comment = s.comment } in
    let cs = optional_line (codes "comment") s.comment in
    let us = optional_line (codes "valid users") s.valid_users in
    let rest = flags s ++ [] ∷ [] in
    let read_path : parse_trimmed (trim (option_line (codes "path") s.path))
          (parse_trimmed (trim (b'[' ∷ (s.name ++ codes "]"))) no_share)
        ≡ s2 =
      ap (λ u. parse_trimmed (trim (option_line (codes "path") s.path)) u)
        (name_line s.name no_share)
      ∙ path_line s.path s1 h.path in
    let shape : (cs ++ (us ++ flags s)) ++ [] ∷ [] ≡ cs ++ (us ++ rest) =
      append_assoc cs (us ++ flags s) ([] ∷ [])
      ∙ ap (λ t. cs ++ t) (append_assoc us (flags s) ([] ∷ [])) in
    ap (λ u. parse_lines ((cs ++ (us ++ flags s)) ++ [] ∷ []) u) read_path
    ∙ (ap (λ ls. parse_lines ls s2) shape
        ∙ (parse_lines-append cs (us ++ rest) s2
            ∙ (ap (λ u. parse_lines (us ++ rest) u) (comment_line s.comment s2 h.comment refl)
                ∙ (parse_lines-append us rest s3
                    ∙ (ap (λ u. parse_lines rest u) (users_line s.valid_users s3 h.valid_users refl)
                        ∙ flag_lines s (record s3 { valid_users = s.valid_users }))))))

-- parseSMBConf reads from the file of smbShareToConf the share that was written, if its name has no
-- line break, and its path, and the comment and the users where it has any, have no line break and
-- begin and end with no space.
pub parse_smb_conf-smb_share_to_conf :
    (s : SmbShare) → IsWritable s → parse_smb_conf (smb_share_to_conf s) ≡ s
unfolding parse_smb_conf smb_share_to_conf
parse_smb_conf-smb_share_to_conf s h =
    ap (λ ls. parse_lines ls no_share) (split-unlines (conf_lines s) (conf_lines-Lacks s h))
    ∙ conf_lines_read s h
