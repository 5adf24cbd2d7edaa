-- ===== src/Hostd/Zfs.antt =====
-- hostd.go: the requests that write snapshots (/zfs/…).
pub mod Prune
pub mod Safe
mod Tests
use pfortainer.Base.{
  ℕ, ◌+◌, Bool, false, not, ◌&&◌, ◌||◌, Option, none, some, List, [], ◌∷◌, ◌++◌, map, Text, codes,
  text_eq, has_prefix, contains, last_index, cut, split, trim, length, take, drop, keep, ltb, ◌==◌,
  if◌then◌else◌,
}
use pfortainer.Http.{Response, http_error, json}
use pfortainer.Hostd.{Command, Log, Shell, command, exec, Request, bad_request, success, with_body}

pub record SnapshotBody : Type 0 where
  pub dataset : Text
  pub snapname : Text

pub record NameBody : Type 0 where
  pub name : Text

pub record CloneBody : Type 0 where
  pub name : Text
  pub target : Text

-- A `keep` that is not positive is 0.
pub record PruneBody : Type 0 where
  pub dataset : Text
  pub prefix : Text
  pub keep_newest : ℕ

abbrev pub zfs : List Text → Command
zfs args = command (codes "zfs" ∷ args)

abbrev pub destroy : Text → Command
destroy name = zfs (codes "destroy" ∷ name ∷ [])

abbrev failed : Text × Option Text → Response
failed (out, none) = success
failed (out, some e) = let msg = trim out in http_error 500 (if text_eq msg [] then e else msg)

-- The command at the end of a handler, and its answer.
abbrev pub run_zfs : Shell → Command → Log → Log × Response
run_zfs sh cmd log = let (r, log') = exec sh cmd log in (log', failed r)

abbrev pub is_snapshot_name : Text → Bool
is_snapshot_name name = contains name (codes "@")

abbrev invalid_name : Response
invalid_name = http_error 400 (codes "invalid snapshot name")

module _ (sh : Shell) where
  unfoldable pub snapshot_body : SnapshotBody → Log → Log × Response
  unfolding text_eq trim
  snapshot_body b log =
      if text_eq b.dataset [] || text_eq b.snapname []
      then (log, bad_request)
      else run_zfs sh (zfs (codes "snapshot" ∷ (b.dataset ++ b'@' ∷ b.snapname) ∷ [])) log

  unfoldable pub zfs_snapshot : Request SnapshotBody → Log → Log × Response
  unfolding with_body snapshot_body
  zfs_snapshot q = with_body q snapshot_body

  unfoldable pub delete_body : NameBody → Log → Log × Response
  unfolding text_eq trim contains
  delete_body b log =
      if text_eq b.name []
      then (log, bad_request)
      else if not (is_snapshot_name b.name)
      then (log, invalid_name)
      else run_zfs sh (destroy b.name) log

  unfoldable pub zfs_snapshot_delete : Request NameBody → Log → Log × Response
  unfolding with_body delete_body
  zfs_snapshot_delete q = with_body q delete_body

  unfoldable pub rollback_body : NameBody → Log → Log × Response
  unfolding text_eq trim contains
  rollback_body b log =
      if text_eq b.name []
      then (log, bad_request)
      else if not (is_snapshot_name b.name)
      then (log, invalid_name)
      else run_zfs sh (zfs (codes "rollback" ∷ codes "-r" ∷ b.name ∷ [])) log

  unfoldable pub zfs_rollback : Request NameBody → Log → Log × Response
  unfolding with_body rollback_body
  zfs_rollback q = with_body q rollback_body

  unfoldable pub clone_body : CloneBody → Log → Log × Response
  unfolding text_eq trim contains
  clone_body b log =
      if text_eq b.name [] || text_eq b.target []
      then (log, bad_request)
      else if not (is_snapshot_name b.name)
      then (log, invalid_name)
      else run_zfs sh (zfs (codes "clone" ∷ b.name ∷ b.target ∷ [])) log

  unfoldable pub zfs_clone : Request CloneBody → Log → Log × Response
  unfolding with_body clone_body
  zfs_clone q = with_body q clone_body

-- The first column of a line of `zfs list`.
abbrev name_column : Text → Text
name_column line = elim (cut line b'\t') [ none ↦ line | some (name, rest) ↦ name ]

-- The snapshot of the line is one of the dataset, and its own name has the prefix.
unfoldable pub is_matching : Text → Text → Text → Bool
unfolding text_eq has_prefix last_index
is_matching dataset prefix name = elim (last_index name b'@') [
  | none ↦ false
  | some at ↦ text_eq (take at name) dataset && has_prefix (drop (at + 1) name) prefix
]

-- The names that match, oldest first.
unfoldable pub matching_names : Text → Text → Text → List Text
unfolding is_matching trim split cut text_eq
matching_names dataset prefix out =
    keep (is_matching dataset prefix)
      (map name_column (keep (λ line. not (text_eq line [])) (split (trim out) b'\n')))

abbrev pub list_snapshots : Text → Command
list_snapshots dataset = zfs (
    codes "list"
    ∷ codes "-H"
    ∷ codes "-p"
    ∷ codes "-t"
    ∷ codes "snapshot"
    ∷ codes "-o"
    ∷ codes "name,creation"
    ∷ codes "-s"
    ∷ codes "creation"
    ∷ codes "-r"
    ∷ dataset
    ∷ [])

module _ (sh : Shell) where
  -- `for len(matching) > req.Keep`: the errors of the commands are ignored.
  unfoldable pub destroy_oldest : ℕ → List Text → Log → Log
  destroy_oldest n [] log = log
  destroy_oldest n (name ∷ names) log =
      let rest = destroy_oldest n names (exec sh (destroy name) log).1 in
      if ltb n (length (name ∷ names)) then rest else log

  abbrev pub prune_listed : PruneBody → (Text × Option Text) × Log → Log × Response
  prune_listed b ((out, some e), log) = (log, http_error 500 e)
  prune_listed b ((out, none), log) =
      (destroy_oldest b.keep_newest (matching_names b.dataset b.prefix out) log, success)

  unfoldable pub prune_body : PruneBody → Log → Log × Response
  unfolding text_eq matching_names destroy_oldest
  prune_body b log =
      if text_eq b.dataset []
      then (log, bad_request)
      else if b.keep_newest == 0
      then (log, success)
      else prune_listed b (exec sh (list_snapshots b.dataset) log)

  unfoldable pub zfs_snapshot_prune : Request PruneBody → Log → Log × Response
  unfolding with_body prune_body
  zfs_snapshot_prune q = with_body q prune_body
