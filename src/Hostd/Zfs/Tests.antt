-- ===== src/Hostd/Zfs/Tests.antt =====
-- Requests on snapshots, on a host that lists three of them.
use pfortainer.Base.{
  ◌-◌, ◌≡◌, refl, true, false, none, some, List, [], ◌∷◌, ◌++◌, map, arith, Text, codes, text_eq,
  has_prefix, last_index, cut, split, trim, length, take, All,
}
use pfortainer.Hostd.{Shell, success}
use pfortainer.Hostd.Zfs.{
  PruneBody, destroy, matching_names, is_matching, list_snapshots, zfs_snapshot_prune,
}
use pfortainer.Hostd.Zfs.Prune.{IsNamed, prune_destroys_oldest}
use pfortainer.Hostd.Zfs.Safe.{
  ZfsRequest, prune, delete, zfs_requests, IsSafeLog, only_snapshots_destroyed,
}

abbrev listing : Text
listing = codes "tank/a@auto-1\t1\ntank/a@manual\t2\ntank/a@auto-2\t3\n"

abbrev host : Shell
host log cmd = (listing, none)

abbrev keep_one : PruneBody
keep_one = record { dataset = codes "tank/a"; prefix = codes "auto"; keep_newest = 1 }

keep_one-dataset : text_eq keep_one.dataset [] ≡ false
unfolding text_eq
keep_one-dataset = refl

abbrev found : List Text
found = matching_names keep_one.dataset keep_one.prefix listing

prune_destroys_oldest_example :
    (zfs_snapshot_prune host (record { is_post = true; body = some keep_one }) [] ≡ (
      ([] ++ list_snapshots keep_one.dataset ∷ []) ++ map destroy (take (length found - 1) found),
      success,
    ))
    × All (IsNamed keep_one.dataset keep_one.prefix) found
prune_destroys_oldest_example =
    prune_destroys_oldest host keep_one [] listing keep_one-dataset (omega arith) refl

-- The two names of the prefix, oldest first.
found_two : found ≡ codes "tank/a@auto-1" ∷ codes "tank/a@auto-2" ∷ []
unfolding matching_names is_matching trim split cut text_eq has_prefix last_index
found_two = refl

abbrev requests : List ZfsRequest
requests =
    prune (record { is_post = true; body = some keep_one })
    ∷ delete (record { is_post = true; body = some (record { name = codes "tank/a" }) })
    ∷ []

only_snapshots_destroyed_example : IsSafeLog (zfs_requests host requests [])
only_snapshots_destroyed_example = only_snapshots_destroyed host requests [] tt
