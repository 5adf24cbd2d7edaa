-- ===== src/Hostd/Zfs/Safe.antt =====
-- The agent destroys snapshots, never a dataset.
use pfortainer.Base.{
  ℕ, ◌≡◌, refl, inl, inr, true, ◌||◌, Option, none, some, List, [], ◌∷◌, ◌++◌, arith, Text, codes,
  text_eq, has_prefix, contains, length, All, All-append, ltb, ◌==◌, Bool-cases,
}
use pfortainer.Store.Rows.Laws.{All-map_rows}
use pfortainer.Hostd.Zfs.Prune.{IsNamed, matching-IsNamed}
use pfortainer.Http.{Response}
use pfortainer.Hostd.{Command, Log, Shell, Request, with_body-keeps}
use pfortainer.Hostd.Zfs.{
  SnapshotBody, NameBody, CloneBody, PruneBody, zfs, destroy, run_zfs, is_snapshot_name,
  zfs_snapshot, zfs_snapshot_delete, snapshot_body, delete_body, rollback_body, clone_body,
  prune_body, zfs_rollback, zfs_clone, matching_names, list_snapshots, destroy_oldest, prune_listed,
  zfs_snapshot_prune,
}

-- A request to one of the five addresses.
pub data ZfsRequest : Type 0 where
  snapshot : Request SnapshotBody → ZfsRequest
  delete : Request NameBody → ZfsRequest
  rollback : Request NameBody → ZfsRequest
  clone : Request CloneBody → ZfsRequest
  prune : Request PruneBody → ZfsRequest

pub zfs_request : Shell → ZfsRequest → Log → Log × Response
zfs_request sh (snapshot q) = zfs_snapshot sh q
zfs_request sh (delete q) = zfs_snapshot_delete sh q
zfs_request sh (rollback q) = zfs_rollback sh q
zfs_request sh (clone q) = zfs_clone sh q
zfs_request sh (prune q) = zfs_snapshot_prune sh q

pub zfs_requests : Shell → List ZfsRequest → Log → Log
zfs_requests sh [] log = log
zfs_requests sh (q ∷ qs) log = zfs_requests sh qs (zfs_request sh q log).0

-- The calls of zfs, each with these words and no other: what is made, destroyed, rolled back or
-- cloned is named with an @.
pub data SafeCall : Command → Type 0 where
  make :
      (dataset snapname : Text)
      → SafeCall (zfs (codes "snapshot" ∷ (dataset ++ b'@' ∷ snapname) ∷ []))
  remove :
      (name : Text) → is_snapshot_name name ≡ true → SafeCall (zfs (codes "destroy" ∷ name ∷ []))
  return_to :
      (name : Text)
      → is_snapshot_name name ≡ true
      → SafeCall (zfs (codes "rollback" ∷ codes "-r" ∷ name ∷ []))
  copy :
      (name target : Text)
      → is_snapshot_name name ≡ true
      → SafeCall (zfs (codes "clone" ∷ name ∷ target ∷ []))
  list : (dataset : Text) → SafeCall (list_snapshots dataset)

abbrev pub IsSafeLog : Log → Type 0
IsSafeLog = All SafeCall

contains_at : (a b : Text) → is_snapshot_name (a ++ b'@' ∷ b) ≡ true
unfolding contains has_prefix
contains_at [] b = refl
contains_at (x ∷ a) b = ground (arith, contains_at a b)

named_at : (dataset prefix name : Text) → IsNamed dataset prefix name → is_snapshot_name name ≡ true
named_at dataset prefix name (rest, e) = rw e (contains_at dataset (prefix ++ rest))

matching-at :
    (dataset prefix out : Text)
    → All (λ name. is_snapshot_name name ≡ true) (matching_names dataset prefix out)
matching-at dataset prefix out =
    All-map_rows (IsNamed dataset prefix) (λ name. is_snapshot_name name ≡ true)
      (matching_names dataset prefix out) (named_at dataset prefix)
      (matching-IsNamed dataset prefix out)

module _ (sh : Shell) where
  run-safe :
      (cmd : Command) (log : Log) → SafeCall cmd → IsSafeLog log → IsSafeLog (run_zfs sh cmd log).0
  run-safe cmd log safe h = All-append SafeCall log (cmd ∷ []) h (safe, tt)

  snapshot-safe :
      (b : SnapshotBody) (log : Log) → IsSafeLog log → IsSafeLog (snapshot_body sh b log).0
  unfolding snapshot_body text_eq
  snapshot-safe b log h = elim (Bool-cases (text_eq b.dataset [] || text_eq b.snapname [])) [
    | inl e ↦ rw (snapshot_body, e) h
    | inr e ↦
        rw (snapshot_body, e)
          (run-safe (zfs (codes "snapshot" ∷ (b.dataset ++ b'@' ∷ b.snapname) ∷ [])) log
            (make b.dataset b.snapname) h)
  ]

  delete-safe : (b : NameBody) (log : Log) → IsSafeLog log → IsSafeLog (delete_body sh b log).0
  unfolding delete_body text_eq
  delete-safe b log h = elim (Bool-cases (text_eq b.name [])) [
    | inl e ↦ rw (delete_body, e) h
    | inr n ↦ elim (Bool-cases (is_snapshot_name b.name)) [
      | inr e ↦ rw (delete_body, n, e) h
      | inl e ↦ rw (delete_body, n, e) (run-safe (destroy b.name) log (remove b.name e) h)
    ]
  ]

  rollback-safe : (b : NameBody) (log : Log) → IsSafeLog log → IsSafeLog (rollback_body sh b log).0
  unfolding rollback_body text_eq
  rollback-safe b log h = elim (Bool-cases (text_eq b.name [])) [
    | inl e ↦ rw (rollback_body, e) h
    | inr n ↦ elim (Bool-cases (is_snapshot_name b.name)) [
      | inr e ↦ rw (rollback_body, n, e) h
      | inl e ↦
          rw (rollback_body, n, e)
            (run-safe (zfs (codes "rollback" ∷ codes "-r" ∷ b.name ∷ [])) log (return_to b.name e)
              h)
    ]
  ]

  clone-safe : (b : CloneBody) (log : Log) → IsSafeLog log → IsSafeLog (clone_body sh b log).0
  unfolding clone_body text_eq
  clone-safe b log h = elim (Bool-cases (text_eq b.name [] || text_eq b.target [])) [
    | inl e ↦ rw (clone_body, e) h
    | inr n ↦ elim (Bool-cases (is_snapshot_name b.name)) [
      | inr e ↦ rw (clone_body, n, e) h
      | inl e ↦
          rw (clone_body, n, e)
            (run-safe (zfs (codes "clone" ∷ b.name ∷ b.target ∷ [])) log (copy b.name b.target e) h)
    ]
  ]

  destroy_oldest-safe :
      (n : ℕ) (names : List Text) (log : Log)
      → All (λ name. is_snapshot_name name ≡ true) names
      → IsSafeLog log
      → IsSafeLog (destroy_oldest sh n names log)
  unfolding destroy_oldest text_eq
  destroy_oldest-safe n [] log k h = h
  destroy_oldest-safe n (name ∷ names) log k h = elim (Bool-cases (ltb n (length (name ∷ names)))) [
    | inr e ↦ rw e h
    | inl e ↦ rw e (
        destroy_oldest-safe n names (log ++ destroy name ∷ []) k.1
          (All-append SafeCall log (destroy name ∷ []) h (remove name k.0, tt)))
  ]

  prune-safe : (b : PruneBody) (log : Log) → IsSafeLog log → IsSafeLog (prune_body sh b log).0
  unfolding prune_body text_eq
  prune-safe b log h = elim (Bool-cases (text_eq b.dataset [])) [
    | inl e ↦ rw (prune_body, e) h
    | inr n ↦ elim (Bool-cases (b.keep_newest == 0)) [
      | inl e ↦ rw (prune_body, n, e) h
      | inr e ↦ rw (prune_body, n, e) (listed (sh log (list_snapshots b.dataset)))
    ]
  ]
    where
      log' : Log
      log' = log ++ list_snapshots b.dataset ∷ []

      listed : (r : Text × Option Text) → IsSafeLog (prune_listed sh b (r, log')).0
      listed (out, some e) =
          All-append SafeCall log (list_snapshots b.dataset ∷ []) h (list b.dataset, tt)
      listed (out, none) =
          destroy_oldest-safe b.keep_newest (matching_names b.dataset b.prefix out) log'
            (matching-at b.dataset b.prefix out)
            (All-append SafeCall log (list_snapshots b.dataset ∷ []) h (list b.dataset, tt))

  request-safe : (q : ZfsRequest) (log : Log) → IsSafeLog log → IsSafeLog (zfs_request sh q log).0
  unfolding zfs_request zfs_snapshot zfs_snapshot_delete zfs_rollback zfs_clone zfs_snapshot_prune
  request-safe (snapshot q) log h =
      with_body-keeps IsSafeLog q (snapshot_body sh) log h (λ b. snapshot-safe b log h)
  request-safe (delete q) log h =
      with_body-keeps IsSafeLog q (delete_body sh) log h (λ b. delete-safe b log h)
  request-safe (rollback q) log h =
      with_body-keeps IsSafeLog q (rollback_body sh) log h (λ b. rollback-safe b log h)
  request-safe (clone q) log h =
      with_body-keeps IsSafeLog q (clone_body sh) log h (λ b. clone-safe b log h)
  request-safe (prune q) log h =
      with_body-keeps IsSafeLog q (prune_body sh) log h (λ b. prune-safe b log h)

  -- Whatever the requests to the five addresses under /zfs and whatever the host prints, each
  -- command that the agent adds to a safe log is one of `zfs snapshot`, `zfs destroy`, `zfs
  -- rollback -r` and `zfs clone` with a name that has an @ (and, for clone, a target), or the
  -- listing of snapshots, with no other words.
  pub only_snapshots_destroyed :
      (qs : List ZfsRequest) (log : Log) → IsSafeLog log → IsSafeLog (zfs_requests sh qs log)
  unfolding zfs_requests
  only_snapshots_destroyed [] log h = h
  only_snapshots_destroyed (q ∷ qs) log h =
      only_snapshots_destroyed qs (zfs_request sh q log).0 (request-safe q log h)
