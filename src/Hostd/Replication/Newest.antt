-- ===== src/Hostd/Replication/Newest.antt =====
-- Which snapshots a replication sends.
use pfortainer.Base.{true, some, List, [], ◌∷◌, Text}
use pfortainer.Hostd.{Command, Request}
use pfortainer.Hostd.Replication.{ReplicationBody, listed_names, base_of, send_command}

abbrev pub posted : ReplicationBody → Request ReplicationBody
posted b = record { is_post = true; body = some b }

-- The commands after the listing of a run that sends `newest`.
abbrev pub transfer : ReplicationBody → Text → Text → Command → List Command
transfer b out newest receive = send_command b (base_of b (listed_names out)) newest ∷ receive ∷ []
