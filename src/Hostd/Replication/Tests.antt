-- ===== src/Hostd/Replication/Tests.antt =====
-- A recursive replication whose newest snapshot is one of a child dataset.
use pfortainer.Base.{
  ◌≡◌, refl, true, none, some, [], ◌∷◌, ◌++◌, Text, codes, text_eq, split, trim, elem_text,
}
use pfortainer.Hostd.{Command, Log, Shell, command}
use pfortainer.Hostd.Replication.{ReplicationBody, listed_names, base_of, list_command, Pipe}
use pfortainer.Hostd.Replication.Newest.{transfer}

abbrev recursive_body : ReplicationBody
recursive_body = record {
  source_dataset = codes "tank/a";
  target_path = codes "backup/a";
  last_snapshot = codes "s1";
  recursive = true;
}

abbrev listing : Text
listing = codes "tank/a@s1\ntank/a/b@s2\n"

abbrev to_backup : Command
to_backup = command (codes "zfs" ∷ codes "receive" ∷ codes "-F" ∷ codes "backup/a" ∷ [])

abbrev host : Shell
host log cmd = (listing, none)

abbrev broken_pipe : Pipe
broken_pipe log send receive = (none, some (codes "no space"))

abbrev sent_log : Log
sent_log =
    ([] ++ list_command recursive_body ∷ [])
    ++ transfer recursive_body listing (codes "tank/a/b" ++ b'@' ∷ codes "s2") to_backup

-- Its base is the snapshot of the parent.
parent_base : base_of recursive_body (listed_names listing) ≡ some (codes "tank/a@s1")
unfolding base_of elem_text text_eq listed_names trim split
parent_base = refl
