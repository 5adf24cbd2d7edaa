-- ===== src/Storage/Tests.antt =====
-- Runs of the parsers on printed text.
use pfortainer.Base.{
  ℕ, ◌≡◌, refl, Bool, true, false, List, [], ◌∷◌, map, Text, codes, text_eq, has_prefix, words_from,
  trim_prefix, chop_lines, scan_lines, split, trim, elem_text, All,
}
use pfortainer.Storage.{
  PoolStatus, VdevNode, flush, after_key, new_pool, leading_spaces, vdev_of, config_line, pool_line,
  status_line, scan_status, parse_zpool_status,
}
use pfortainer.Storage.Pools.{name_of, pools_started, parse_zpool_status_sound}
use pfortainer.Storage.Disks.{device_of, is_smart_dev, is_unit, take_devices, parse_smart_scan}

abbrev printed : Text
printed =
    codes
      "  pool: tank\n state: DEGRADED\n  scan: none requested\nconfig:\n\n\tNAME        STATE     READ WRITE CKSUM\n\ttank        DEGRADED     0     0     0\n\t  ada1      OFFLINE      0     0     3\n\nerrors: No known data errors\n\n  pool: zroot\n state: ONLINE\n"

shown : List PoolStatus → List (Text × Bool × List (Text × ℕ × Bool))
shown ps =
    map
      (λ (p : PoolStatus).
        (p.name, p.healthy, map (λ (v : VdevNode). (v.name, v.indent_px, v.healthy)) p.vdevs))
      ps

two_pools :
    shown (parse_zpool_status printed)
    ≡ (codes "tank", false, (codes "tank", 0, false) ∷ (codes "ada1", 16, false) ∷ [])
      ∷ (codes "zroot", true, [])
      ∷ []
unfolding shown parse_zpool_status scan_status status_line trim has_prefix after_key trim_prefix
    flush new_pool pool_line config_line leading_spaces vdev_of words_from chop_lines split text_eq
two_pools = refl

scanned :
    parse_smart_scan
      (codes "/dev/ada0 -d atacam # x\n/dev/ses0 -d scsi\n/dev/ada0 again\n/dev/nvme12 -d nvme\n")
    ≡ codes "ada0" ∷ codes "nvme12" ∷ []
unfolding parse_smart_scan take_devices device_of is_smart_dev is_unit words_from trim_prefix
    has_prefix elem_text text_eq chop_lines split
scanned = refl

parse_zpool_status_sound_example :
    (map name_of (parse_zpool_status printed) ≡ pools_started (scan_lines printed))
    × All (λ p. p.healthy ≡ text_eq p.state (codes "ONLINE")) (parse_zpool_status printed)
parse_zpool_status_sound_example = parse_zpool_status_sound printed
