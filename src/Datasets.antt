-- ===== src/Datasets.antt =====
-- zfs.go: the lists of pools, datasets and snapshots, as functions of what zpool list and zfs list
-- print. fmtBytes and the percentage, which compute with floats, are parameters. ParseInt's error is
-- dropped by the code: a text that is no number reads as 0, one out of range as the largest int64;
-- negative numbers, which zfs does not print, read as 0 here.
pub mod Tree
pub mod Snapshots
pub mod Tests
use pfortainer.Base.{
  ℕ, suc, ◌+◌, ◌-◌, ◌*◌, ◌^◌, Bool, not, ◌&&◌, ◌||◌, Option, none, some, List, [], ◌∷◌, ◌++◌, Text,
  codes, text_eq, has_prefix, contains, last_index, split, trim, Result, ok, ◌>>=◌, take, drop, any,
  ltb, leb, ◌==◌, if◌then◌else◌,
}

abbrev pub tab : ℕ
tab = 9

abbrev pub newline : ℕ
newline = 10

abbrev max_int : ℕ
max_int = 2 ^ 63 - 1

-- strconv.ParseInt(s, 10, 64) without its error.
unfoldable pub number_from : ℕ → Text → ℕ
number_from n [] = n
number_from n (x ∷ xs) =
    let rest = number_from (10 * n + (x - 48)) xs in if ltb x 48 || ltb 57 x then 0 else rest

unfoldable pub parse_int : Text → ℕ
unfolding number_from
parse_int s = let n = number_from 0 s in if ltb max_int n then max_int else n

-- The lines of an output.
unfoldable pub lines_of : Text → List Text
lines_of out = split (trim out) newline

unfoldable pub fields_of : Text → List Text
fields_of line = split line tab

-- The items that a loop over the lines keeps.
unfoldable pub collect {ℓ κ} : {A : Type ℓ} {B : Type κ} → (A → Option B) → List A → List B
collect f [] = []
collect f (x ∷ xs) = let rest = collect f xs in elim (f x) [ none ↦ rest | some y ↦ y ∷ rest ]

pub record Pool : Type 0 where
  pub name : Text
  pub size : Text
  pub alloc : Text
  pub free : Text
  pub health : Text
  pub use_pct : ℕ

module _ (fmt_bytes : ℕ → Text) (percent : ℕ → ℕ → ℕ) where
  pool_of : List Text → Option Pool
  unfolding parse_int
  pool_of (name ∷ size ∷ alloc ∷ free ∷ health ∷ more) = some record {
    name = name;
    size = fmt_bytes (parse_int size);
    alloc = fmt_bytes (parse_int alloc);
    free = fmt_bytes (parse_int free);
    health = health;
    use_pct = if ltb 0 (parse_int size) then percent (parse_int alloc) (parse_int size) else 0;
  }
  pool_of _ = none

  unfoldable pub list_zfs_pools : Result Text → Result (List Pool)
  unfolding collect pool_of lines_of fields_of
  list_zfs_pools printed = printed >>= λ out.
      ok (
        collect (λ line. if text_eq line [] then none else pool_of (fields_of line)) (lines_of out))

-- The index of the last "@", if it is larger than that of the last "/", an index being -1 for none.
unfoldable pub snapshot_at : Text → Option ℕ
snapshot_at name = elim (last_index name b'@') [
  | none ↦ none
  | some i ↦ elim (last_index name b'/') [
    | none ↦ some i
    | some j ↦ (if ltb j i then some i else none)
  ]
]

unfoldable pub short_name : Text → Text
unfolding snapshot_at
short_name name = elim (snapshot_at name) [
  | some i ↦ b'@' ∷ drop (suc i) name
  | none ↦ elim (last_index name b'/') [ some j ↦ drop (suc j) name | none ↦ name ]
]

unfoldable pub parent_of : Text → Text
unfolding snapshot_at
parent_of name = elim (snapshot_at name) [
  | some i ↦ take i name
  | none ↦ elim (last_index name b'/') [ some j ↦ take j name | none ↦ [] ]
]

-- strings.Count of one byte.
unfoldable pub count_byte : ℕ → Text → ℕ
count_byte c [] = 0
count_byte c (x ∷ xs) = let rest = count_byte c xs in if x == c then suc rest else rest

unfoldable pub depth : Text → ℕ
unfolding snapshot_at count_byte
depth name = elim (snapshot_at name) [
  | some i ↦ count_byte b'/' (take i name) + 1
  | none ↦ count_byte b'/' name
]

unfoldable pub has_children : List Text → Text → Bool
has_children names name =
    any
      (λ n.
        not (text_eq n name)
        && (has_prefix n (name ++ b'/' ∷ []) || has_prefix n (name ++ b'@' ∷ [])))
      names

pub record Dataset : Type 0 where
  pub name : Text
  pub short : Text
  pub parent : Text
  pub kind : Text
  pub used : Text
  pub avail : Text
  pub refer : Text
  pub mountpoint : Text
  pub level : ℕ
  pub indent_px : ℕ
  pub is_pool : Bool
  pub with_children : Bool
  pub has_files : Bool
  pub can_delete : Bool

-- The first field, if it is not empty.
unfoldable pub name_of : List Text → Option Text
name_of [] = none
name_of (f ∷ fs) = if text_eq f [] then none else some f

abbrev pub empty_dataset_threshold : ℕ
empty_dataset_threshold = 2 ^ 20

module _ (fmt_bytes : ℕ → Text) where
  unfoldable pub new_dataset : List Text → (name kind used avail refer mountpoint : Text) → Dataset
  unfolding parse_int short_name parent_of depth has_children
  new_dataset names name kind used avail refer mountpoint =
      let pool = not (contains name (b'/' ∷ [])) && not (contains name (b'@' ∷ [])) in
      let parent = has_children names name in
      let files = leb empty_dataset_threshold (parse_int refer) in
      record {
        name = name;
        short = short_name name;
        parent = parent_of name;
        kind = kind;
        used = fmt_bytes (parse_int used);
        avail = fmt_bytes (parse_int avail);
        refer = fmt_bytes (parse_int refer);
        mountpoint = mountpoint;
        level = depth name;
        indent_px = depth name * 16;
        is_pool = pool;
        with_children = parent;
        has_files = files;
        can_delete = not pool && (not parent && (not files && text_eq kind (codes "filesystem")));
      }

  unfoldable pub dataset_of : List Text → List Text → Option Dataset
  unfolding new_dataset
  dataset_of names (name ∷ kind ∷ used ∷ avail ∷ refer ∷ mountpoint ∷ more) =
      some (new_dataset names name kind used avail refer mountpoint)
  dataset_of names _ = none

  -- An empty line has one field, so that the second test drops it too.
  unfoldable pub datasets_in : List Text → List Dataset
  unfolding collect dataset_of name_of fields_of
  datasets_in lines =
      let names = collect (λ line. name_of (fields_of line)) lines in
      collect (λ line. if text_eq line [] then none else dataset_of names (fields_of line)) lines

  unfoldable pub list_zfs_datasets : Result Text → Result (List Dataset)
  unfolding datasets_in lines_of
  list_zfs_datasets printed = printed >>= λ out. ok (datasets_in (lines_of out))
