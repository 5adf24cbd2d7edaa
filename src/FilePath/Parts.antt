-- ===== src/FilePath/Parts.antt =====
-- filemanager.go: the directory and the last name of a resolved path (parentDir, filepath.Base).
use pfortainer.Base.{
  ℕ, suc, ◌≡◌, refl, sym, ap, ◌∙◌, ◌≢◌, false, some, List, [], ◌∷◌, ◌++◌, append_assoc, arith, Text,
  text_eq, last_index, text_eq_iff, Lacks, last_index-append, drop-length, length, take, drop, All,
  if◌then◌else◌,
}
use pfortainer.FilePath.{
  slash, root, print, rooted, clean, is_abs, dir_of, after_slash, trim_slashes, base, IsName, push,
}
use pfortainer.FilePath.Resolve.{
  clean_abs, has_prefix-print, names_element, names-print, append_ne_nil,
}

take-suc-length : (x : ℕ) (a b : Text) → take (suc (length a)) (a ++ x ∷ b) ≡ a ++ x ∷ []
take-suc-length x [] b = refl
take-suc-length x (y ∷ a) b = ap (λ t. y ∷ t) (take-suc-length x a b)

dir_of_at : (p : Text) (i : ℕ) → last_index p slash ≡ some i → dir_of p ≡ clean (take (suc i) p)
unfolding dir_of
dir_of_at p i e = rw (e, dir_of) refl

-- The directory of a name in a directory.
pub dir_of-child :
    (s : List Text) (c : Text) → All IsName s → IsName c → dir_of (rooted (c ∷ s)) ≡ rooted s
unfolding rooted print push text_eq is_abs
dir_of-child s c hs h =
    dir_of_at (print s ++ slash ∷ c) (length (print s))
      (last_index-append slash (print s) c h.no_slash)
    ∙ (ap clean (take-suc-length slash (print s) c)
        ∙ clean_abs (print s ++ slash ∷ []) (has_prefix-print s [])
        ∙ ap rooted (names_element (print s) [] tt ∙ names-print s hs))

trim_slashes-Lacks : (c : Text) → Lacks slash c → trim_slashes c ≡ c
unfolding trim_slashes
trim_slashes-Lacks [] h = refl
trim_slashes-Lacks (x ∷ []) h = ground (arith, h.0)
trim_slashes-Lacks (x ∷ y ∷ c) h = ground (arith, trim_slashes-Lacks (y ∷ c) h.1)

pub trim_slashes-append : (a c : Text) → Lacks slash c → c ≢ [] → trim_slashes (a ++ c) ≡ a ++ c
unfolding trim_slashes
trim_slashes-append [] c h ne = trim_slashes-Lacks c h
trim_slashes-append (x ∷ []) [] h ne = absurd (ne refl)
trim_slashes-append (x ∷ []) (y ∷ c) h ne = ground (arith, trim_slashes-Lacks (y ∷ c) h)
trim_slashes-append (x ∷ z ∷ a) c h ne = ground (arith, trim_slashes-append (z ∷ a) c h ne)

last_part : Text → Text
unfolding trim_slashes
last_part p = let last = after_slash (trim_slashes p) in if text_eq last [] then root else last

base_of : (p : Text) → p ≢ [] → base p ≡ last_part p
unfolding base last_part
base_of [] h = absurd (h refl)
base_of (x ∷ p) h = refl

after_slash_at : (p : Text) (i : ℕ) → last_index p slash ≡ some i → after_slash p ≡ drop (suc i) p
after_slash_at p i e = rw (e, after_slash) refl

last_part_lem : (a c : Text) → Lacks slash c → c ≢ [] → last_part (a ++ slash ∷ c) ≡ c
unfolding last_part
last_part_lem a c h ne =
    let e : trim_slashes (a ++ slash ∷ c) ≡ a ++ slash ∷ c =
      ap trim_slashes (sym (append_assoc a (slash ∷ []) c))
      ∙ (trim_slashes-append (a ++ slash ∷ []) c h ne ∙ append_assoc a (slash ∷ []) c) in
    let f : after_slash (trim_slashes (a ++ slash ∷ c)) ≡ c =
      ap after_slash e
      ∙ (after_slash_at (a ++ slash ∷ c) (length a) (last_index-append slash a c h)
          ∙ drop-length slash a c) in
    let g : text_eq c [] ≡ false = ground (arith, text_eq_iff c []) in rw (f, g) refl

-- The last name of a resolved path.
pub base-child : (s : List Text) (c : Text) → IsName c → base (rooted (c ∷ s)) ≡ c
unfolding rooted print
base-child s c h =
    base_of (print s ++ slash ∷ c) (append_ne_nil (print s) slash c)
    ∙ last_part_lem (print s) c h.no_slash h.not_empty
