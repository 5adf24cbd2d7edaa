-- ===== src/Hostd/Replication.antt =====
-- hostd.go: /replication/run. `Pipe` is the host for `zfs send | receive`: what went wrong with the
-- one and with the other. The failures to start a command, and what a successful send prints, are
-- left out: the output is the program's own text.
pub mod Newest
mod Tests
use pfortainer.Base.{
  ℕ, ◌+◌, Bool, false, not, ◌&&◌, ◌||◌, Option, none, some, List, [], ◌∷◌, ◌++◌, map, Text, codes,
  text_eq, has_prefix, contains, last_index, cut, split, trim, elem_text, Result, ok, err, length,
  drop, keep, all, leb, ◌==◌, if◌then◌else◌,
}
use pfortainer.Http.{Response, http_error, json}
use pfortainer.Hostd.{Command, Log, Shell, command, exec, Request, bad_request, with_body}

pub record ReplicationBody : Type 0 where
  pub source_dataset : Text
  pub target_path : Text
  pub last_snapshot : Text
  pub recursive : Bool

abbrev is_letter : ℕ → Bool
is_letter c = (leb b'a' c && leb c b'z') || (leb b'A' c && leb c b'Z')

abbrev is_dataset_byte : ℕ → Bool
is_dataset_byte c =
    is_letter c || (leb b'0' c && leb c b'9') || c == b'_' || c == b'/' || c == b'.' || c == b'-'

-- zfsDatasetRe: ^[a-zA-Z][a-zA-Z0-9_/.\-]{0,254}$
unfoldable pub is_dataset : Text → Bool
is_dataset [] = false
is_dataset (c ∷ s) = is_letter c && all is_dataset_byte s && leb (length s) 254

abbrev pub list_command : ReplicationBody → Command
list_command b = command (
    codes "zfs"
    ∷ codes "list"
    ∷ codes "-t"
    ∷ codes "snapshot"
    ∷ codes "-o"
    ∷ codes "name"
    ∷ codes "-s"
    ∷ codes "creation"
    ∷ codes "-H"
    ∷ ((if b.recursive then codes "-r" ∷ [] else []) ++ b.source_dataset ∷ []))

-- The names that are printed, oldest first.
unfoldable pub listed_names : Text → List Text
unfolding trim split text_eq
listed_names out = keep (λ name. not (text_eq name [])) (map trim (split (trim out) b'\n'))

abbrev pub last_of : List Text → Option Text
last_of [] = none
last_of (name ∷ names) = elim (last_of names) [ none ↦ some name | some n ↦ some n ]

-- What stands behind the last @, or all where there is none.
abbrev pub label_of : Text → Text
label_of name = elim (last_index name b'@') [ none ↦ name | some at ↦ drop (at + 1) name ]

-- The snapshot to send from, where the label of the last run is still listed.
unfoldable pub base_of : ReplicationBody → List Text → Option Text
unfolding elem_text text_eq
base_of b names =
    let full = b.source_dataset ++ b'@' ∷ b.last_snapshot in
    if not (text_eq b.last_snapshot []) && elem_text full names then some full else none

abbrev pub send_command : ReplicationBody → Option Text → Text → Command
send_command b base current = command (
    codes "zfs"
    ∷ codes "send"
    ∷ ((if b.recursive then codes "-R" ∷ [] else [])
        ++ elim base [ none ↦ current ∷ [] | some prev ↦ codes "-i" ∷ prev ∷ current ∷ [] ]))

abbrev local_receive : Text → Option Command
local_receive target =
    if not (is_dataset target)
    then none
    else some (command (codes "zfs" ∷ codes "receive" ∷ codes "-F" ∷ target ∷ []))

-- Through ssh where the target has a colon and does not begin with a slash.
unfoldable pub receive_command : Text → Option Command
unfolding contains has_prefix cut is_dataset
receive_command target =
    if contains target (codes ":") && not (has_prefix target (codes "/"))
    then elim (cut target b':') [
      | none ↦ none
      | some (host, dataset) ↦ some (
          command (
            codes "ssh"
            ∷ codes "-o"
            ∷ codes "StrictHostKeyChecking=accept-new"
            ∷ codes "-o"
            ∷ codes "BatchMode=yes"
            ∷ host
            ∷ codes "zfs"
            ∷ codes "receive"
            ∷ codes "-F"
            ∷ dataset
            ∷ []))
    ]
    else local_receive target

-- What is to do: nothing, since the label is the last one; or a pipe that makes the label the last.
pub data Plan : Type 0 where
  up_to_date : (label : Text) → Plan
  pipe : (send receive : Command) (label : Text) → Plan

abbrev plan_receive : Command → Text → Option Command → Result Plan
plan_receive send label none = err (codes "invalid target path")
plan_receive send label (some receive) = ok (pipe send receive label)

abbrev pub plan_current : ReplicationBody → List Text → Option Text → Result Plan
plan_current b names none = err (b.source_dataset ++ codes "에 스냅샷이 없습니다. 먼저 스냅샷을 생성하세요.")
plan_current b names (some current) =
    let label = label_of current in
    if not (text_eq b.last_snapshot []) && text_eq b.last_snapshot label
    then ok (up_to_date label)
    else plan_receive (send_command b (base_of b names) current) label
        (receive_command b.target_path)

-- The plan for what `zfs list` prints.
unfoldable pub replication_plan : ReplicationBody → Text → Result Plan
unfolding listed_names base_of receive_command last_index text_eq
replication_plan b out = let names = listed_names out in plan_current b names (last_of names)

abbrev pub Pipe : Type 0
Pipe = Log → Command → Command → Option Text × Option Text

abbrev pub sent : Text → Option Text × Option Text → Response
sent label (some e, r) = http_error 500 (codes "zfs send 실패: " ++ e)
sent label (none, some e) = http_error 500 (codes "zfs receive 실패: " ++ e)
sent label (none, none) = json label

abbrev pub carry_out : Pipe → Log → Result Plan → Log × Response
carry_out p log (err e) = (log, http_error 400 e)
carry_out p log (ok (up_to_date label)) = (log, json label)
carry_out p log (ok (pipe send receive label)) =
    (log ++ send ∷ receive ∷ [], sent label (p log send receive))

abbrev pub listed : Pipe → ReplicationBody → (Text × Option Text) × Log → Log × Response
listed p b ((out, some e), log) = (log, http_error 500 (codes "zfs list snapshots 실패: " ++ e))
listed p b ((out, none), log) = carry_out p log (replication_plan b out)

-- The JSON answer is its field current_snapshot.
unfoldable pub replication_run_host : Shell → Pipe → Request ReplicationBody → Log → Log × Response
unfolding with_body is_dataset replication_plan
replication_run_host sh p q = with_body q λ b log.
    if not (is_dataset b.source_dataset)
    then (log, http_error 400 (codes "invalid source dataset"))
    else listed p b (exec sh (list_command b) log)
