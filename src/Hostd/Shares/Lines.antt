-- ===== src/Hostd/Shares/Lines.antt =====
-- hostd.go: parseSMBConf on one line that smbShareToConf writes.
use pfortainer.Base.{
  ℕ, ◌≡◌, refl, sym, ap, ◌∙◌, ◌⊎◌, inl, inr, Bool, true, false, ◌&&◌, some, List, [], ◌∷◌, ◌++◌,
  append_assoc, arith, Text, codes, text_eq, has_prefix, cut, trim, Lacks, Lacks-append, cut-append,
  drop,
}
use pfortainer.Hostd.Shares.{
  newline, to_lower, SmbShare, ends_with, drop_last, bool_val, set_key, parse_trimmed, parse_lines,
  bool_str, option_line, optional_line,
}
use pfortainer.Hostd.Shares.Trim.{
  starts_well, ends_well, starts_well-append, ends_well-append, trim_solid, trim_lead, trim_trail,
}

-- A value that a line can carry.
pub record IsValue (v : Text) : Type 0 where
  pub starts : starts_well v ≡ true
  pub ends : ends_well v ≡ true
  pub one_line : Lacks newline v

-- A key: a value without "=" that does not look like a header.
pub record IsKey (k : Text) : Type 0 where
  pub value : IsValue k
  pub no_equals : Lacks b'=' k
  pub no_bracket : (s : Text) → has_prefix (k ++ s) (codes "[") ≡ false

no_option :
    (t : Text) (s : SmbShare) (k v : Text)
    → has_prefix t (codes "[") ≡ false
    → cut t b'=' ≡ some (k, v)
    → parse_trimmed t s ≡ set_key (to_lower (trim k)) (trim v) s
unfolding parse_trimmed
no_option t s k v h c = rw (h, parse_trimmed, c) refl

-- One line that sets an option.
pub option_line_lem :
    (k v : Text) (s : SmbShare)
    → IsKey k
    → IsValue v
    → parse_trimmed (trim (option_line k v)) s ≡ set_key (to_lower k) v s
unfolding ends_well
option_line_lem k v s key value =
    let t = k ++ (codes " = " ++ v) in
    let solid : trim (9 ∷ t) ≡ t =
      trim_lead 9 t refl
      ∙ trim_solid t (starts_well-append k (codes " = " ++ v) key.value.starts)
          (ends_well-append k (codes " = " ++ v) (ends_well-append (codes " = ") v value.ends)) in
    let parts : cut t b'=' ≡ some (k ++ 32 ∷ [], 32 ∷ v) =
      ap (λ u. cut u b'=') (sym (append_assoc k (32 ∷ []) (b'=' ∷ 32 ∷ v)))
      ∙ cut-append b'=' (k ++ 32 ∷ []) (32 ∷ v)
          (Lacks-append b'=' k (32 ∷ []) key.no_equals ((omega arith), tt)) in
    ap (λ u. parse_trimmed u s) solid
    ∙ (no_option t s (k ++ 32 ∷ []) (32 ∷ v) (key.no_bracket (codes " = " ++ v)) parts
        ∙ (ap (λ u. set_key (to_lower u) (trim (32 ∷ v)) s)
              (trim_trail k key.value.starts key.value.ends)
            ∙ ap (λ u. set_key (to_lower k) u s)
                (trim_lead 32 v refl ∙ trim_solid v value.starts value.ends)))

ends_with-append : (c : ℕ) (a : Text) → ends_with c (a ++ c ∷ []) ≡ true
unfolding ends_with
ends_with-append c [] = ground arith
ends_with-append c (x ∷ []) = ground arith
ends_with-append c (x ∷ y ∷ a) = ends_with-append c (y ∷ a)

drop_last-append : (a : Text) (c : ℕ) → drop_last (a ++ c ∷ []) ≡ a
unfolding drop_last
drop_last-append [] c = refl
drop_last-append (x ∷ []) c = refl
drop_last-append (x ∷ y ∷ a) c = ap (λ t. x ∷ t) (drop_last-append (y ∷ a) c)

a_header :
    (t : Text) (s : SmbShare)
    → (has_prefix t (codes "[") && ends_with b']' t) ≡ true
    → parse_trimmed t s ≡ record s { name = drop_last (drop 1 t) }
unfolding parse_trimmed
a_header t s h = rw (h, parse_trimmed) refl

header_ends :
    (n : Text)
    → (has_prefix (b'[' ∷ (n ++ codes "]")) (codes "[") && ends_with b']' (b'[' ∷ (n ++ codes "]")))
      ≡ true
unfolding has_prefix
header_ends [] = ends_with-append b']' (b'[' ∷ [])
header_ends (x ∷ n) = ends_with-append b']' (b'[' ∷ x ∷ n)

pub name_line :
    (n : Text) (s : SmbShare)
    → parse_trimmed (trim (b'[' ∷ (n ++ codes "]"))) s ≡ record s { name = n }
unfolding has_prefix starts_well ends_well
name_line n s =
    let t = b'[' ∷ (n ++ codes "]") in
    ap (λ u. parse_trimmed u s) (trim_solid t refl (ends_well-append (b'[' ∷ n) (codes "]") refl))
    ∙ (a_header t s (header_ends n) ∙ ap (λ u. record s { name = u }) (drop_last-append n b']'))

pub parse_lines-append :
    (xs ys : List Text) (s : SmbShare)
    → parse_lines (xs ++ ys) s ≡ parse_lines ys (parse_lines xs s)
unfolding parse_lines
parse_lines-append [] ys s = refl
parse_lines-append (x ∷ xs) ys s = parse_lines-append xs ys (parse_trimmed (trim x) s)

-- Nothing, or a value.
abbrev pub IsOptional : Text → Type 0
IsOptional v = (v ≡ []) ⊎ IsValue v

value_ne_nil : (v : Text) → IsValue v → text_eq v [] ≡ false
unfolding starts_well text_eq
value_ne_nil [] h = absurd (cc (h.starts))
value_ne_nil (x ∷ v) h = refl

-- The keys that smbShareToConf writes.
pub path-IsKey : IsKey (codes "path")
unfolding starts_well ends_well has_prefix
path-IsKey = record {
  value = record { starts = refl; ends = refl; one_line = omega arith };
  no_equals = omega arith;
  no_bracket = λ s. refl;
}

pub comment-IsKey : IsKey (codes "comment")
unfolding starts_well ends_well has_prefix
comment-IsKey = record {
  value = record { starts = refl; ends = refl; one_line = omega arith };
  no_equals = omega arith;
  no_bracket = λ s. refl;
}

pub users-IsKey : IsKey (codes "valid users")
unfolding starts_well ends_well has_prefix
users-IsKey = record {
  value = record { starts = refl; ends = refl; one_line = omega arith };
  no_equals = omega arith;
  no_bracket = λ s. refl;
}

pub read_only-IsKey : IsKey (codes "read only")
unfolding starts_well ends_well has_prefix
read_only-IsKey = record {
  value = record { starts = refl; ends = refl; one_line = omega arith };
  no_equals = omega arith;
  no_bracket = λ s. refl;
}

pub browseable-IsKey : IsKey (codes "browseable")
unfolding starts_well ends_well has_prefix
browseable-IsKey = record {
  value = record { starts = refl; ends = refl; one_line = omega arith };
  no_equals = omega arith;
  no_bracket = λ s. refl;
}

pub guest-IsKey : IsKey (codes "guest ok")
unfolding starts_well ends_well has_prefix
guest-IsKey = record {
  value = record { starts = refl; ends = refl; one_line = omega arith };
  no_equals = omega arith;
  no_bracket = λ s. refl;
}

pub bool_str-IsValue : (b : Bool) → IsValue (bool_str b)
unfolding starts_well ends_well
bool_str-IsValue true = record { starts = refl; ends = refl; one_line = omega arith }
bool_str-IsValue false = record { starts = refl; ends = refl; one_line = omega arith }

pub bool_val-bool_str : (b : Bool) → bool_val (bool_str b) ≡ b
unfolding bool_val trim text_eq
bool_val-bool_str true = refl
bool_val-bool_str false = refl

pub comment_line :
    (v : Text) (s : SmbShare)
    → IsOptional v
    → s.comment ≡ []
    → parse_lines (optional_line (codes "comment") v) s ≡ record s { comment = v }
unfolding parse_lines set_key text_eq
comment_line v s (inl e) h =
    ap (λ u. parse_lines (optional_line (codes "comment") u) s) e
    ∙ ap (λ u. record s { comment = u }) (h ∙ sym e)
comment_line v s (inr value) h =
    rw (value_ne_nil v value) (option_line_lem (codes "comment") v s comment-IsKey value)

pub users_line :
    (v : Text) (s : SmbShare)
    → IsOptional v
    → s.valid_users ≡ []
    → parse_lines (optional_line (codes "valid users") v) s ≡ record s { valid_users = v }
unfolding parse_lines set_key text_eq
users_line v s (inl e) h =
    ap (λ u. parse_lines (optional_line (codes "valid users") u) s) e
    ∙ ap (λ u. record s { valid_users = u }) (h ∙ sym e)
users_line v s (inr value) h =
    rw (value_ne_nil v value) (option_line_lem (codes "valid users") v s users-IsKey value)
