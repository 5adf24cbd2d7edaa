-- ===== src/Storage/Disks.antt =====
-- storage.go: the devices that smartctl --scan names, and the summary of smartctl -a; with the white
-- list of devices of hostd.go.
use pfortainer.Base.{
  ℕ, Bool, false, not, ◌&&◌, ◌||◌, Option, none, some, List, [], ◌∷◌, ◌++◌, map, Text, codes,
  text_eq, has_prefix, contains, fields, trim_prefix, scan_lines, cut, trim, elem_text, Result, ok,
  ◌>>=◌, get_elem?, keep, any, all, leb, ◌==◌, if◌then◌else◌,
}

-- smartDevRe: one of the drivers' names, then digits.
abbrev drivers : List Text
drivers = map codes ("ada" ∷ "da" ∷ "nvd" ∷ "nvme" ∷ "ad" ∷ "vtbd" ∷ "mfid" ∷ "nda" ∷ [])

abbrev pub is_digit : ℕ → Bool
is_digit c = leb 48 c && leb c 57

unfoldable pub is_unit : Text → Bool
is_unit s = not (text_eq s []) && all is_digit s

unfoldable pub is_smart_dev : Text → Bool
unfolding is_unit
is_smart_dev dev = any (λ d. has_prefix dev d && is_unit (trim_prefix dev d)) drivers

-- The device of a line, with the prefix /dev/ off.
unfoldable pub device_of : Text → Option Text
device_of line = elim (fields line) [ [] ↦ none | f ∷ fs ↦ some (trim_prefix f (codes "/dev/")) ]

-- `seen` holds the devices taken so far: the loop's map and its result.
unfoldable pub take_devices : List Text → List Text → List Text
unfolding device_of is_smart_dev
take_devices seen [] = seen
take_devices seen (l ∷ ls) =
    take_devices
      (elim (device_of l) [
        | none ↦ seen
        | some d ↦ if is_smart_dev d && not (elem_text d seen) then seen ++ d ∷ [] else seen
      ])
      ls

unfoldable pub parse_smart_scan : Text → List Text
unfolding take_devices
parse_smart_scan out = take_devices [] (scan_lines out)

pub record DiskSmart : Type 0 where
  pub device : Text
  pub model : Text
  pub serial : Text
  pub capacity : Text
  pub health : Text
  pub healthy : Bool
  pub temp_c : Text
  pub power_on_hours : Text
  pub power_cycles : Text
  pub reallocated : Text
  pub failure : Text

unfoldable pub new_disk : Text → DiskSmart
new_disk dev = record {
  device = dev;
  model = [];
  serial = [];
  capacity = [];
  health = codes "unknown";
  healthy = false;
  temp_c = [];
  power_on_hours = [];
  power_cycles = [];
  reallocated = [];
  failure = [];
}

-- What stands behind the first colon.
unfoldable pub val : Text → Text
val s = elim (cut s b':') [ none ↦ [] | some (a, b) ↦ trim b ]

-- strings.ReplaceAll(s, ",", "").
abbrev without_commas : Text → Text
without_commas s = keep (λ c. not (c == b',')) s

abbrev first_field : Text → Text → Text
first_field s other = elim (fields s) [ [] ↦ other | f ∷ fs ↦ f ]

-- The switch over a line of the form "key: value".
unfoldable pub key_line : Text → DiskSmart → DiskSmart
unfolding val
key_line t d =
    if has_prefix t (codes "Device Model:") || has_prefix t (codes "Model Number:")
    then record d { model = val t }
    else if text_eq d.model [] && has_prefix t (codes "Model Family:")
    then record d { model = val t }
    else if has_prefix t (codes "Serial Number:")
    then record d { serial = val t }
    else if has_prefix t (codes "User Capacity:")
    then record d { capacity = val t }
    else if text_eq d.capacity [] && has_prefix t (codes "Total NVM Capacity:")
    then record d { capacity = val t }
    else if contains t (codes "overall-health")
    then record d { health = val t; healthy = contains t (codes "PASSED") }
    else if has_prefix t (codes "Power On Hours:")
    then record d { power_on_hours = without_commas (val t) }
    else if has_prefix t (codes "Power Cycles:")
    then record d { power_cycles = without_commas (val t) }
    else if has_prefix t (codes "Temperature:") && text_eq d.temp_c []
    then record d { temp_c = first_field (val t) d.temp_c }
    else d

-- The switch over the second field of a row of the attribute table, with its tenth.
unfoldable pub attribute : Text → Text → DiskSmart → DiskSmart
attribute name raw d =
    if text_eq name (codes "Temperature_Celsius") || text_eq name (codes "Airflow_Temperature_Cel")
    then if text_eq d.temp_c [] then record d { temp_c = raw } else d
    else if text_eq name (codes "Power_On_Hours")
    then record d { power_on_hours = raw }
    else if text_eq name (codes "Power_Cycle_Count")
    then record d { power_cycles = raw }
    else if text_eq name (codes "Reallocated_Sector_Ct")
    then record d { reallocated = raw }
    else d

unfoldable pub attribute_row : List Text → DiskSmart → DiskSmart
unfolding attribute
attribute_row fs d = elim (get_elem? fs 9) [
  | none ↦ d
  | some raw ↦ elim (get_elem? fs 1) [ none ↦ d | some name ↦ attribute name raw d ]
]

unfoldable pub smart_line : Text → DiskSmart → DiskSmart
unfolding key_line attribute_row
smart_line line d = let t = trim line in attribute_row (fields t) (key_line t d)

unfoldable pub smart_lines : List Text → DiskSmart → DiskSmart
unfolding smart_line
smart_lines [] d = d
smart_lines (l ∷ ls) d = smart_lines ls (smart_line l d)

unfoldable pub parse_smart : Text → Text → DiskSmart
unfolding smart_lines new_disk
parse_smart dev out = smart_lines (scan_lines out) (new_disk dev)

-- One disk of smartSummary: the output of the query and its error. A read that failed and printed
-- nothing gives a row with the error.
unfoldable pub summary_of : (Text → Text × Option Text) → Text → DiskSmart
unfolding parse_smart
summary_of query dev =
    let (out, failure) = query dev in
    elim failure [
      | none ↦ parse_smart dev out
      | some e ↦
          if text_eq out [] then record (new_disk dev) { failure = e } else parse_smart dev out
    ]

unfoldable pub smart_summary : Result Text → (Text → Text × Option Text) → Result (List DiskSmart)
unfolding parse_smart_scan summary_of
smart_summary scanned query = scanned >>= λ out. ok (map (summary_of query) (parse_smart_scan out))
