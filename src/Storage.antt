-- ===== src/Storage.antt =====
-- storage.go: the parsers of zpool status and smartctl, as functions of what those commands print.
pub mod Pools
pub mod Disks
pub mod Tests
use pfortainer.Base.{
  ℕ, suc, ◌*◌, ◌/◌, Bool, true, false, not, Option, none, some, List, [], ◌∷◌, ◌++◌, Text, codes,
  text_eq, has_prefix, fields, trim_prefix, scan_lines, trim, Result, ok, ◌>>=◌, ◌==◌,
  if◌then◌else◌,
}

pub record VdevNode : Type 0 where
  pub name : Text
  pub state : Text
  pub read : Text
  pub write : Text
  pub cksum : Text
  pub indent_px : ℕ
  pub healthy : Bool

pub record PoolStatus : Type 0 where
  pub name : Text
  pub state : Text
  pub status : Text
  pub action : Text
  pub scan : Text
  pub errors : Text
  pub vdevs : List VdevNode
  pub healthy : Bool

-- The variables of the loop over the lines.
pub record Scan : Type 0 where
  pub pools : List PoolStatus
  pub cur : Option PoolStatus
  pub in_config : Bool
  pub header_seen : Bool

unfoldable pub flush : Scan → List PoolStatus
flush st = elim st.cur [ none ↦ st.pools | some p ↦ st.pools ++ p ∷ [] ]

-- strings.TrimSpace(strings.TrimPrefix(t, key)).
unfoldable pub after_key : Text → Text → Text
after_key t key = trim (trim_prefix t key)

abbrev online : Text
online = codes "ONLINE"

unfoldable pub new_pool : Text → PoolStatus
new_pool name = record {
  name = name;
  state = [];
  status = [];
  action = [];
  scan = [];
  errors = [];
  vdevs = [];
  healthy = false;
}

unfoldable pub leading_spaces : Text → ℕ
leading_spaces [] = 0
leading_spaces (x ∷ xs) = let rest = leading_spaces xs in if x == 32 then suc rest else 0

abbrev node : Text → ℕ → VdevNode
node name indent = record {
  name = name;
  state = [];
  read = [];
  write = [];
  cksum = [];
  indent_px = indent / 2 * 16;
  healthy = false;
}

abbrev with_state : Text → VdevNode → VdevNode
with_state s n = record n { state = s; healthy = text_eq s online }

-- The row of the config tree, from its fields.
unfoldable pub vdev_of : ℕ → List Text → Option VdevNode
vdev_of indent [] = none
vdev_of indent (f ∷ []) = some (node f indent)
vdev_of indent (f ∷ s ∷ r ∷ w ∷ c ∷ more) =
    some (record (with_state s (node f indent)) { read = r; write = w; cksum = c })
vdev_of indent (f ∷ s ∷ more) = some (with_state s (node f indent))

-- A line under "config:".
unfoldable pub config_line : Text → Text → PoolStatus → Scan → Scan
unfolding leading_spaces vdev_of
config_line line t p st =
    if text_eq t []
    then st
    else if not st.header_seen
    then record st { header_seen = has_prefix t (codes "NAME") }
    else elim (vdev_of (leading_spaces (trim_prefix line (9 ∷ []))) (fields t)) [
      | none ↦ st
      | some n ↦ record st { cur = some (record p { vdevs = p.vdevs ++ n ∷ [] }) }
    ]

abbrev set_state : Text → PoolStatus → PoolStatus
set_state s p = record p { state = s; healthy = text_eq s online }

-- The cases of the switch after "pool:", within a pool.
unfoldable pub pool_line : Text → Text → PoolStatus → Scan → Scan
unfolding after_key config_line
pool_line line t p st =
    if has_prefix t (codes "state:")
    then record st { cur = some (set_state (after_key t (codes "state:")) p) }
    else if has_prefix t (codes "status:")
    then record st { cur = some (record p { status = after_key t (codes "status:") }) }
    else if has_prefix t (codes "action:")
    then record st { cur = some (record p { action = after_key t (codes "action:") }) }
    else if has_prefix t (codes "scan:")
    then record st { cur = some (record p { scan = after_key t (codes "scan:") }) }
    else if has_prefix t (codes "errors:")
    then record st {
      cur = some (record p { errors = after_key t (codes "errors:") });
      in_config = false;
    }
    else if has_prefix t (codes "config:")
    then record st { in_config = true; header_seen = false }
    else if st.in_config
    then config_line line t p st
    else st

unfoldable pub status_line : Text → Scan → Scan
unfolding after_key new_pool flush pool_line
status_line line st =
    let t = trim line in
    if has_prefix t (codes "pool:")
    then record {
      pools = flush st;
      cur = some (new_pool (after_key t (codes "pool:")));
      in_config = false;
      header_seen = false;
    }
    else elim st.cur [ none ↦ st | some p ↦ pool_line line t p st ]

unfoldable pub scan_status : Scan → List Text → Scan
unfolding status_line
scan_status st [] = st
scan_status st (l ∷ ls) = scan_status (status_line l st) ls

unfoldable pub parse_zpool_status : Text → List PoolStatus
unfolding scan_status flush
parse_zpool_status out = flush (
    scan_status record { pools = []; cur = none; in_config = false; header_seen = false }
      (scan_lines out))

unfoldable pub pool_status : Result Text → Result (List PoolStatus)
unfolding parse_zpool_status
pool_status printed = printed >>= λ out. ok (parse_zpool_status out)
