-- ===== src/FilePath.antt =====
-- filemanager.go: the paths of the file manager, with path/filepath: Clean and Base of any path, Join
-- of a path that is not empty and a name, Dir of a path with a slash. A path is resolved into a stack
-- of names, the last name first.
pub mod Resolve
pub mod Parts
pub mod Crumbs
pub mod Tests
use pfortainer.Base.{
  ℕ, suc, ◌≢◌, Bool, not, ◌&&◌, ◌||◌, Option, none, some, List, [], ◌∷◌, ◌++◌, Text, codes, text_eq,
  has_prefix, last_index, split, Lacks, take, drop, ◌==◌, if◌then◌else◌,
}

abbrev pub slash : ℕ
slash = b'/'

abbrev pub root : Text
root = slash ∷ []

abbrev pub dot : Text
dot = codes "."

abbrev pub dot_dot : Text
dot_dot = codes ".."

-- One element of the path: nothing and "." are dropped, ".." takes the last name away.
unfoldable pub push : Text → List Text → List Text
push c s =
    if text_eq c [] || text_eq c dot then s else if text_eq c dot_dot then drop 1 s else c ∷ s

unfoldable pub resolve : List Text → List Text → List Text
resolve s [] = s
resolve s (c ∷ cs) = resolve (push c s) cs

unfoldable pub names : Text → List Text
names p = resolve [] (split p slash)

unfoldable pub print : List Text → Text
print [] = []
print (c ∷ s) = print s ++ slash ∷ c

-- The path of a stack of names.
unfoldable pub rooted : List Text → Text
rooted [] = root
rooted (c ∷ s) = print (c ∷ s)

unfoldable pub is_abs : Text → Bool
is_abs p = has_prefix p root

-- One element of a path that begins with no slash: ".." stays where no name is left to take away.
unfoldable pub push_relative : Text → List Text → List Text
unfolding push
push_relative c [] = if text_eq c dot_dot then dot_dot ∷ [] else push c []
push_relative c (d ∷ s) =
    if text_eq c dot_dot && text_eq d dot_dot then c ∷ d ∷ s else push c (d ∷ s)

unfoldable pub resolve_relative : List Text → List Text → List Text
resolve_relative s [] = s
resolve_relative s (c ∷ cs) = resolve_relative (push_relative c s) cs

unfoldable pub relative : List Text → Text
unfolding print
relative [] = dot
relative (c ∷ s) = drop 1 (print (c ∷ s))

-- filepath.Clean.
unfoldable pub clean : Text → Text
unfolding is_abs split
clean p = if is_abs p then rooted (names p) else relative (resolve_relative [] (split p slash))

-- filepath.Join of a path that is not empty and one name.
unfoldable pub join : Text → Text → Text
unfolding clean
join dir name = clean (if text_eq name [] then dir else dir ++ slash ∷ name)

-- filepath.Dir of a path with a slash.
unfoldable pub dir_of : Text → Text
unfolding clean
dir_of p = elim (last_index p slash) [ none ↦ dot | some i ↦ clean (take (suc i) p) ]

unfoldable pub trim_slashes : Text → Text
trim_slashes [] = []
trim_slashes (x ∷ xs) = elim (trim_slashes xs) [
  | [] ↦ (if x == slash then [] else x ∷ [])
  | y ∷ ys ↦ x ∷ y ∷ ys
]

abbrev pub after_slash : Text → Text
after_slash p = elim (last_index p slash) [ none ↦ p | some i ↦ drop (suc i) p ]

-- filepath.Base.
unfoldable pub base : Text → Text
unfolding trim_slashes
base [] = dot
base (x ∷ xs) =
    let last = after_slash (trim_slashes (x ∷ xs)) in if text_eq last [] then root else last

unfoldable pub clean_path : Text → Text
unfolding clean
clean_path p =
    if text_eq p [] then root else let c = clean (slash ∷ p) in if text_eq c [] then root else c

-- none for the answer ("", false).
unfoldable pub safe_path : Text → Option Text
unfolding clean_path is_abs
safe_path p = let c = clean_path p in if not (is_abs c) then none else some c

unfoldable pub parent_dir : Text → Text
unfolding dir_of
parent_dir path = let p = dir_of path in if text_eq p path then [] else p

-- What Resolve shows of every name of a resolved path.
pub record IsName (c : Text) : Type 0 where
  pub not_empty : c ≢ []
  pub not_dot : c ≢ dot
  pub not_dot_dot : c ≢ dot_dot
  pub no_slash : Lacks slash c
