-- ===== src/Files/Memory.antt =====
-- A file system in memory, for the tests: contents by path, and the directories. Paths of 40 bytes or
-- more are too long.
use pfortainer.Base.{
  ℕ, ◌<◌, ◌≡◌, refl, inl, inr, Bool, true, false, not, none, List, [], ◌∷◌, ◌++◌, arith, Text,
  codes, text_eq, has_prefix, elem_text, Result, ok, err, length, keep, All, All-append, ltb,
  if◌then◌else◌, Bool-cases,
}
use pfortainer.FilePath.{names, rooted, IsName}
use pfortainer.FilePath.Resolve.{names-IsName}
use pfortainer.Files.{Info, Os}
use pfortainer.Files.Copying.{Writes, Bounded}

pub record Disk : Type 0 where
  pub content : Text → Result Text
  pub dirs : List Text

abbrev pub entry : Text → Bool → Info
entry name is_dir = record {
  name = name;
  size = 0;
  mode = 493;
  is_dir = is_dir;
  is_link = false;
  owner = none;
  mode_text = [];
  mod_time = [];
}

-- The entry that a directory is in another one.
unfoldable pub entry_in : Text → List Text → List Info
unfolding rooted
entry_in p [] = []
entry_in p (c ∷ s) = if text_eq (rooted s) p then entry c true ∷ [] else []

unfoldable pub children : Text → List Text → List Info
unfolding entry_in names
children p [] = []
children p (d ∷ ds) = entry_in p (names d) ++ children p ds

abbrev update : (Text → Result Text) → Text → Result Text → Text → Result Text
update f p r q = if text_eq q p then r else f q

abbrev appended : Text → Result Text → Result Text
appended t (ok old) = ok (old ++ t)
appended t (err _) = ok t

abbrev opened : Result Text → Result (Unit {0})
opened (ok _) = ok tt
opened (err e) = err e

abbrev pub limit : ℕ
limit = 40

unfoldable pub list_dir : Text → Disk → Result (List Info)
unfolding children elem_text
list_dir p w =
    if ltb (length p) limit
    then if elem_text p w.dirs then ok (children p w.dirs) else err (codes "no such directory")
    else err (codes "file name too long")

unfoldable pub memory : Os Disk
unfolding elem_text text_eq has_prefix list_dir
memory = record {
  stat = λ p w. if elem_text p w.dirs then ok (entry p true) else err (codes "no such file");
  lstat = λ p w. if elem_text p w.dirs then ok (entry p true) else err (codes "no such file");
  readlink = λ p w. err [];
  lookup_user = λ u. err [];
  lookup_group = λ g. err [];
  open_dir = λ p w. if elem_text p w.dirs then ok tt else err (codes "no such file");
  read_dir = list_dir;
  open_file = λ p w. opened (w.content p);
  read_file = λ p w. w.content p;
  write_file = λ p t mode w. (ok tt, record w { content = update w.content p (ok t) });
  create_new = λ p mode w. (ok tt, record w { content = update w.content p (ok []) });
  truncate = λ p mode w. (ok tt, record w { content = update w.content p (ok []) });
  append = λ p t w. (ok tt, record w { content = update w.content p (appended t (w.content p)) });
  mkdir = λ p mode w.
      if elem_text p w.dirs
      then (err (codes "file exists"), w)
      else (ok tt, record w { dirs = p ∷ w.dirs });
  remove_all = λ p w. (ok tt, record w { dirs = keep (λ d. not (has_prefix d p)) w.dirs });
  rename = λ p q w. (ok tt, w);
  chmod = λ p mode w. (ok tt, w);
}

pub memory-Writes : Writes memory
unfolding memory text_eq
memory-Writes = record {
  read-truncate = λ p mode w q h. refl;
  read-append = λ p t w q old e h. rw e refl;
}

entry_in-All : (p : Text) (s : List Text) → All IsName s → All (λ e. IsName e.name) (entry_in p s)
unfolding entry_in
entry_in-All p [] h = tt
entry_in-All p (c ∷ s) h = elim (Bool-cases (text_eq (rooted s) p)) [
  | inl e ↦ rw e (h.0, tt)
  | inr e ↦ rw e tt
]

children-All : (p : Text) (ds : List Text) → All (λ e. IsName e.name) (children p ds)
unfolding children
children-All p [] = tt
children-All p (d ∷ ds) =
    All-append (λ (e : Info). IsName e.name) (entry_in p (names d)) (children p ds)
      (entry_in-All p (names d) (names-IsName d)) (children-All p ds)

list_dir_ok :
    (p : Text) (w : Disk) (es : List Info)
    → list_dir p w ≡ ok es
    → (length p < limit) × (es ≡ children p w.dirs)
unfolding list_dir
list_dir_ok p w es h = ground arith

pub memory-Bounded : Bounded memory limit
unfolding memory list_dir
memory-Bounded = record {
  short = λ p w es h. (list_dir_ok p w es h).0;
  proper = λ p w es h. rw ((list_dir_ok p w es h).1) (children-All p w.dirs);
}
