-- ===== src/FilePath/Crumbs.antt =====
-- filemanager.go: buildBreadcrumbs, against the stack of names that the path stands for.
use pfortainer.Base.{
  ◌≡◌, refl, sym, ap, ◌∙◌, ◌≢◌, inl, inr, false, List, [], ◌∷◌, ◌++◌, append_assoc, arith, Text,
  text_eq, split-append, split_one, split, text_eq_iff, Lacks, All, ◌==◌, if◌then◌else◌, Bool-cases,
}
use pfortainer.FilePath.{
  slash, root, names, print, rooted, dir_of, parent_dir, trim_slashes, IsName,
}
use pfortainer.FilePath.Resolve.{names-rooted}
use pfortainer.FilePath.Parts.{dir_of-child, trim_slashes-append}

pub record Breadcrumb : Type 0 where
  pub name : Text
  pub path : Text

abbrev pub crumb : Text → Text → Breadcrumb
crumb name path = record { name = name; path = path }

unfoldable pub trim_left_slashes : Text → Text
trim_left_slashes [] = []
trim_left_slashes (x ∷ xs) = let rest = trim_left_slashes xs in if x == slash then rest else x ∷ xs

-- The loop over the parts, with the path so far.
unfoldable pub crumbs : Text → List Text → List Breadcrumb
crumbs cur [] = []
crumbs cur (p ∷ ps) =
    let skip = crumbs cur ps in
    let next = crumbs (cur ++ slash ∷ p) ps in
    if text_eq p [] then skip else crumb p (cur ++ slash ∷ p) ∷ next

unfoldable pub build_breadcrumbs : Text → List Breadcrumb
unfolding trim_slashes trim_left_slashes crumbs
build_breadcrumbs path =
    crumb root root ∷ crumbs [] (split (trim_left_slashes (trim_slashes path)) slash)

-- One crumb for each directory on the way, in order from the root.
unfoldable pub trail : List Text → List Breadcrumb
trail [] = crumb root root ∷ []
trail (c ∷ s) = trail s ++ crumb c (rooted (c ∷ s)) ∷ []

walked : Text → List Text → Text
walked cur [] = cur
walked cur (p ∷ ps) = walked (if text_eq p [] then cur else cur ++ slash ∷ p) ps

crumbs-append :
    (ps : List Text) (cur c : Text)
    → c ≢ []
    → crumbs cur (ps ++ c ∷ []) ≡ crumbs cur ps ++ crumb c (walked cur ps ++ slash ∷ c) ∷ []
unfolding crumbs walked
crumbs-append [] cur c h = ground (arith, text_eq_iff c [])
crumbs-append (p ∷ ps) cur c h = elim (Bool-cases (text_eq p [])) [
  | inl e ↦ rw e (crumbs-append ps cur c h)
  | inr e ↦
      rw e (ap (λ t. crumb p (cur ++ slash ∷ p) ∷ t) (crumbs-append ps (cur ++ slash ∷ p) c h))
]

walked-append :
    (ps : List Text) (cur c : Text)
    → c ≢ []
    → walked cur (ps ++ c ∷ []) ≡ walked cur ps ++ slash ∷ c
unfolding walked
walked-append [] cur c h = ground (arith, text_eq_iff c [])
walked-append (p ∷ ps) cur c h =
    walked-append ps (if text_eq p [] then cur else cur ++ slash ∷ p) c h

split-print :
    (s : List Text) (c : Text)
    → Lacks slash c
    → split (print (c ∷ s)) slash ≡ split (print s) slash ++ c ∷ []
unfolding print
split-print s c h =
    split-append slash (print s) c ∙ ap (λ t. split (print s) slash ++ t) (split_one slash c h)

walked-print : (s : List Text) → All IsName s → walked [] (split (print s) slash) ≡ print s
unfolding print walked split text_eq
walked-print [] h = refl
walked-print (c ∷ s) h =
    ap (walked []) (split-print s c h.0.no_slash)
    ∙ (walked-append (split (print s) slash) [] c h.0.not_empty
        ∙ ap (λ t. t ++ slash ∷ c) (walked-print s h.1))

trail-crumbs :
    (s : List Text) → All IsName s → crumb root root ∷ crumbs [] (split (print s) slash) ≡ trail s
unfolding trail print crumbs split text_eq rooted
trail-crumbs [] h = refl
trail-crumbs (c ∷ s) h =
    ap (λ t. crumb root root ∷ crumbs [] t) (split-print s c h.0.no_slash)
    ∙ (ap (λ t. crumb root root ∷ t) (crumbs-append (split (print s) slash) [] c h.0.not_empty)
        ∙ (ap
              (λ t.
                (crumb root root ∷ crumbs [] (split (print s) slash))
                ++ crumb c (t ++ slash ∷ c) ∷ [])
              (walked-print s h.1)
            ∙ ap (λ t. t ++ crumb c (print (c ∷ s)) ∷ []) (trail-crumbs s h.1)))

-- The leading slashes make only empty parts, which the loop skips.
crumbs-trim_left :
    (p : Text) → crumbs [] (split (trim_left_slashes p) slash) ≡ crumbs [] (split p slash)
unfolding trim_left_slashes crumbs split text_eq
crumbs-trim_left [] = refl
crumbs-trim_left (x ∷ p) = elim (Bool-cases (x == slash)) [
  | inl e ↦ rw e (crumbs-trim_left p)
  | inr e ↦
      let t : trim_left_slashes (x ∷ p) ≡ x ∷ p = ground arith in
      ap (λ u. crumbs [] (split u slash)) t
]

pub build_breadcrumbs-trail :
    (s : List Text) → All IsName s → build_breadcrumbs (rooted s) ≡ trail s
unfolding build_breadcrumbs rooted print trail crumbs split text_eq
build_breadcrumbs-trail [] h = refl
build_breadcrumbs-trail (c ∷ s) h =
    ap (λ t. crumb root root ∷ crumbs [] (split (trim_left_slashes t) slash))
      (ap trim_slashes (sym (append_assoc (print s) (slash ∷ []) c))
        ∙ (trim_slashes-append (print s ++ slash ∷ []) c h.0.no_slash h.0.not_empty
            ∙ append_assoc (print s) (slash ∷ []) c))
    ∙ (ap (λ t. crumb root root ∷ t) (crumbs-trim_left (print (c ∷ s))) ∙ trail-crumbs (c ∷ s) h)

child_ne : (s : List Text) (c : Text) → s ≢ c ∷ s
child_ne [] c e = cc
child_ne (d ∷ s) c e = child_ne s d (cc)

rooted-ne-child : (s : List Text) (c : Text) → IsName c → All IsName s → rooted s ≢ rooted (c ∷ s)
rooted-ne-child s c h hs e =
    child_ne s c (sym (names-rooted s hs) ∙ (ap names e ∙ names-rooted (c ∷ s) (h, hs)))

-- The parent link of a directory is the crumb before its own.
pub parent_dir-child :
    (s : List Text) (c : Text) → All IsName s → IsName c → parent_dir (rooted (c ∷ s)) ≡ rooted s
unfolding parent_dir
parent_dir-child s c hs h =
    let e : dir_of (rooted (c ∷ s)) ≡ rooted s = dir_of-child s c hs h in
    let n : text_eq (rooted s) (rooted (c ∷ s)) ≡ false =
      ground (arith, rooted-ne-child s c h hs, text_eq_iff (rooted s) (rooted (c ∷ s))) in
    rw (e, n) refl

pub crumbs_of_parent :
    (s : List Text) (c : Text)
    → All IsName s
    → IsName c
    → (build_breadcrumbs root ≡ crumb root root ∷ [])
      × (build_breadcrumbs (rooted (c ∷ s))
          ≡ build_breadcrumbs (parent_dir (rooted (c ∷ s))) ++ crumb c (rooted (c ∷ s)) ∷ [])
unfolding trail rooted
crumbs_of_parent s c hs h = (
  build_breadcrumbs-trail [] tt,
  build_breadcrumbs-trail (c ∷ s) (h, hs)
      ∙ ap (λ t. t ++ crumb c (rooted (c ∷ s)) ∷ [])
          (sym (build_breadcrumbs-trail s hs)
            ∙ ap build_breadcrumbs (sym (parent_dir-child s c hs h))),
)
