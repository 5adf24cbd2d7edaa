-- ===== src/FilePath/Resolve.antt =====
-- filemanager.go: cleanPath and safePath resolve every text to the path of a stack of proper names.
use pfortainer.Base.{
  ℕ, ◌≡◌, refl, sym, ap, ◌∙◌, ◌≢◌, true, false, some, List, [], ◌∷◌, ◌++◌, append_assoc, arith,
  Text, text_eq, has_prefix, split-append, split_one, split-Lacks, split, text_eq_iff, Lacks, All,
}
use pfortainer.FilePath.{
  slash, root, dot, dot_dot, push, resolve, names, print, rooted, clean, join, is_abs, clean_path,
  safe_path, IsName,
}

push-IsName : (c : Text) (s : List Text) → Lacks slash c → All IsName s → All IsName (push c s)
unfolding push
push-IsName c [] h t = ground (arith, text_eq_iff c [], text_eq_iff c dot, text_eq_iff c dot_dot)
push-IsName c (d ∷ s) h t =
    ground (arith, text_eq_iff c [], text_eq_iff c dot, text_eq_iff c dot_dot)

resolve-IsName :
    (cs s : List Text) → All (Lacks slash) cs → All IsName s → All IsName (resolve s cs)
unfolding resolve
resolve-IsName [] s h t = t
resolve-IsName (c ∷ cs) s h t = resolve-IsName cs (push c s) h.1 (push-IsName c s h.0 t)

-- Whatever the text, it resolves to proper names.
pub names-IsName : (p : Text) → All IsName (names p)
unfolding names
names-IsName p = resolve-IsName (split p slash) [] (split-Lacks slash p) tt

resolve-append : (cs ds s : List Text) → resolve s (cs ++ ds) ≡ resolve (resolve s cs) ds
unfolding resolve
resolve-append [] ds s = refl
resolve-append (c ∷ cs) ds s = resolve-append cs ds (push c s)

names-slash : (a b : Text) → names (a ++ slash ∷ b) ≡ resolve (names a) (split b slash)
unfolding names
names-slash a b =
    ap (resolve []) (split-append slash a b) ∙ resolve-append (split a slash) (split b slash) []

push_name : (c : Text) (s : List Text) → IsName c → push c s ≡ c ∷ s
unfolding push
push_name c s h = ground (
  arith,
  h.not_empty,
  h.not_dot,
  h.not_dot_dot,
  text_eq_iff c [],
  text_eq_iff c dot,
  text_eq_iff c dot_dot,
)

-- One more element, without a slash, is one step of the resolution.
pub names_element : (a c : Text) → Lacks slash c → names (a ++ slash ∷ c) ≡ push c (names a)
unfolding resolve
names_element a c h = names-slash a c ∙ ap (resolve (names a)) (split_one slash c h)

pub names-print : (s : List Text) → All IsName s → names (print s) ≡ s
unfolding print names resolve push split text_eq
names-print [] h = refl
names-print (c ∷ s) h =
    names_element (print s) c h.0.no_slash ∙ (ap (push c) (names-print s h.1) ∙ push_name c s h.0)

pub names-rooted : (s : List Text) → All IsName s → names (rooted s) ≡ s
unfolding rooted names resolve push split text_eq
names-rooted [] h = refl
names-rooted (c ∷ s) h = names-print (c ∷ s) h

pub append_ne_nil : (a : Text) (c : ℕ) (b : Text) → a ++ c ∷ b ≢ []
append_ne_nil [] c b h = cc
append_ne_nil (x ∷ a) c b h = cc

rooted_ne_nil : (s : List Text) → rooted s ≢ []
unfolding rooted print
rooted_ne_nil [] h = cc
rooted_ne_nil (c ∷ s) h = append_ne_nil (print s) slash c h

pub has_prefix-print : (s : List Text) (c : Text) → has_prefix (print s ++ slash ∷ c) root ≡ true
unfolding print has_prefix
has_prefix-print [] c = refl
has_prefix-print (d ∷ s) c =
    ap (λ t. has_prefix t root) (append_assoc (print s) (slash ∷ d) (slash ∷ c))
    ∙ has_prefix-print s (d ++ slash ∷ c)

is_abs-rooted : (s : List Text) → is_abs (rooted s) ≡ true
unfolding rooted is_abs has_prefix print
is_abs-rooted [] = refl
is_abs-rooted (c ∷ s) = has_prefix-print s c

-- Of a path that begins with a slash.
pub clean_abs : (p : Text) → is_abs p ≡ true → clean p ≡ rooted (names p)
unfolding clean
clean_abs p h = rw h refl

is_abs-append : (a b : Text) → is_abs a ≡ true → is_abs (a ++ b) ≡ true
unfolding is_abs has_prefix
is_abs-append [] b h = absurd (ground arith)
is_abs-append (x ∷ a) b h = ground arith

clean_path-ne-nil : (p : Text) → text_eq (rooted (names p)) [] ≡ false
clean_path-ne-nil p = ground (arith, rooted_ne_nil (names p), text_eq_iff (rooted (names p)) [])

-- The path of the names that the text resolves to.
pub clean_path_lem : (p : Text) → clean_path p ≡ rooted (names p)
unfolding clean_path rooted names resolve push clean split text_eq is_abs has_prefix
clean_path_lem [] = refl
clean_path_lem (x ∷ p) = rw (clean_path-ne-nil (x ∷ p)) refl

pub safe_path_lem : (p : Text) → safe_path p ≡ some (rooted (names p))
unfolding safe_path
safe_path_lem p = rw (clean_path_lem p, is_abs-rooted (names p)) refl

pub clean_path-clean_path : (p : Text) → clean_path (clean_path p) ≡ clean_path p
clean_path-clean_path p =
    clean_path_lem (clean_path p)
    ∙ (ap rooted (ap names (clean_path_lem p) ∙ names-rooted (names p) (names-IsName p))
        ∙ sym (clean_path_lem p))

-- Of every text, relative ones included, cleanPath makes the absolute path of the names that the
-- text resolves to from the root, none of them empty, ".", ".." or with a slash, and of its own
-- result it makes the same; safePath returns that path and refuses nothing.
pub clean_path_resolves :
    (p : Text)
    → (safe_path p ≡ some (clean_path p))
      × (clean_path (clean_path p) ≡ clean_path p)
      × (clean_path p ≡ rooted (names p))
      × All IsName (names p)
clean_path_resolves p = (
  safe_path_lem p ∙ ap some (sym (clean_path_lem p)),
  clean_path-clean_path p,
  clean_path_lem p,
  names-IsName p,
)

-- A name without a slash, joined to a resolved directory, is one step from it.
pub join_step :
    (s : List Text) (c : Text)
    → All IsName s
    → Lacks slash c
    → c ≢ []
    → join (rooted s) c ≡ rooted (push c s)
unfolding join
join_step s c hs h ne =
    let e : text_eq c [] ≡ false = ground (arith, text_eq_iff c []) in
    let abs : is_abs (rooted s ++ slash ∷ c) ≡ true =
      is_abs-append (rooted s) (slash ∷ c) (is_abs-rooted s) in
    rw e (
      clean_abs (rooted s ++ slash ∷ c) abs
      ∙ ap rooted (names_element (rooted s) c h ∙ ap (push c) (names-rooted s hs)))

-- A proper name is a child of the directory.
pub join_child :
    (s : List Text) (c : Text) → All IsName s → IsName c → join (rooted s) c ≡ rooted (c ∷ s)
join_child s c hs h = join_step s c hs h.no_slash h.not_empty ∙ ap rooted (push_name c s h)
