-- ===== src/Systemd/Devices.antt =====
-- cgroups/systemd/common.go: the device rules of a group as properties of a systemd unit. The scan
-- of a line by `fmt.Sscanf` and the test for a path are arguments; the emulator is the model of
-- cgroups/devices.
pub mod Groups
pub mod Paths
pub mod Listed
pub mod Allowed
use libcontainer.Prelude.{
  ℕ, Bool, true, false, ◌&&◌, ◌||◌, not, List, [], ◌∷◌, ◌++◌, Option, none, some, ◌==◌, bytes_eq,
  if◌then◌else◌, Result, ok, err, ◌>>=◌,
}
use libcontainer.Prelude.Int.{ℤ, pos, eq_ℤ, ltb_ℤ}
use libcontainer.Text.{Bytes, codes, Reader, trim_space, format_int}
use libcontainer.Devices.{Rule, wildcard, block_device, char_device}
use libcontainer.Emulator as Emulator
use libcontainer.Emulator.{Emulator, is_blacklist, is_allow_all, apply_all, deny_all, minimal_rules}
use libcontainer.Systemd.{DeviceAllowEntry, Property, new_prop, text, entries}

pub data Error : Type 0 where
  no_proc_devices bad_proc_line proc_read_failed no_group_prefix : Error
  rule_failed : Emulator.Error → Error
  internal_deny_rule invalid_device_type : Error

-- the host: /proc/devices, if it can be opened, `fmt.Sscanf(line, "%d %s")`, and `os.Stat`
pub record Host : Type 0 where
  pub proc_devices : Option Reader
  pub scan_line : Bytes → Option (ℤ × Bytes)
  pub path_exists : Bytes → Bool

unfoldable pub group_prefix : ℕ → Result Error Bytes
group_prefix t =
    if t == block_device
    then ok (codes "block-")
    else if t == char_device
    then ok (codes "char-")
    else err no_group_prefix

abbrev pub block_header : Bytes
block_header = codes "Block devices:"

abbrev pub char_header : Bytes
char_header = codes "Character devices:"

-- a line of the wanted type: the name, or the search goes on
abbrev pub scanned : Bytes → ℤ → Option (ℤ × Bytes) → Result Error Bytes → Result Error Bytes
scanned prefix major none later = err bad_proc_line
scanned prefix major (some (m, name)) later = if eq_ℤ m major then ok (prefix ++ name) else later

-- the loop of `findDeviceGroup`, with `currentType`
unfoldable pub find_in_lines :
    (Bytes → Option (ℤ × Bytes)) → Bytes → ℕ → ℤ → ℕ → Bool → List Bytes → Result Error Bytes
find_in_lines scan prefix t major current fails [] = if fails then err proc_read_failed else ok []
find_in_lines scan prefix t major current fails (raw ∷ rest) =
    let line = trim_space raw in
    let go =
      find_in_lines scan prefix t major
        (if bytes_eq line block_header
          then block_device
          else if bytes_eq line char_header
          then char_device
          else current)
        fails rest in
    if bytes_eq line block_header || bytes_eq line char_header || bytes_eq line []
    then go
    else if not (current == t)
    then go
    else scanned prefix major (scan line) go

abbrev pub find_in_file : (Bytes → Option (ℤ × Bytes)) → ℕ → ℤ → Option Reader → Result Error Bytes
find_in_file scan t major none = err no_proc_devices
find_in_file scan t major (some r) =
    group_prefix t >>= λ prefix. find_in_lines scan prefix t major 0 r.fails r.lines

-- `findDeviceGroup`; the name is empty if there is no group
unfoldable pub find_device_group : Host → ℕ → ℤ → Result Error Bytes
find_device_group h t major = find_in_file h.scan_line t major h.proc_devices

abbrev pub allow_all_devices : List Property
allow_all_devices =
    new_prop (codes "DevicePolicy") (text (codes "auto"))
    ∷ new_prop (codes "DeviceAllow") (entries [])
    ∷ []

-- the properties that come first
abbrev pub strict_policy : List Property
strict_policy =
    new_prop (codes "DevicePolicy") (text (codes "strict"))
    ∷ new_prop (codes "DeviceAllow") (entries [])
    ∷ []

-- the path of one device
abbrev pub device_path : ℕ → ℤ → ℤ → Bytes
device_path t major minor =
    (if t == block_device then codes "/dev/block/" else codes "/dev/char/")
    ++ (format_int major ++ b':' ∷ format_int minor)

abbrev pub entry_for : Bytes → Rule → DeviceAllowEntry
entry_for path rule = record { path = path; perms = rule.permissions }

-- the path of an entry, or `none` where the rule is ignored
unfoldable pub entry_path : Host → ℤ → Rule → Result Error (Option Bytes)
entry_path h version rule =
    if eq_ℤ rule.major wildcard
    then (if not (eq_ℤ rule.minor wildcard)
        then ok none
        else (group_prefix rule.type >>= λ prefix. ok (some (prefix ++ codes "*"))))
    else if eq_ℤ rule.minor wildcard
    then (find_device_group h rule.type rule.major >>= λ group.
        ok (if bytes_eq group [] then none else some group))
    else ok (
        if ltb_ℤ version (pos 240)
          && not (h.path_exists (device_path rule.type rule.major rule.minor))
        then none
        else some (device_path rule.type rule.major rule.minor))

abbrev pub with_entry : Rule → Option Bytes → List DeviceAllowEntry → List DeviceAllowEntry
with_entry rule none rest = rest
with_entry rule (some path) rest = entry_for path rule ∷ rest

-- the loop over the final rules
unfoldable pub allow_list : Host → ℤ → List Rule → Result Error (List DeviceAllowEntry)
allow_list h version [] = ok []
allow_list h version (rule ∷ rules) =
    let rest = entry_path h version rule >>= λ path.
    allow_list h version rules >>= λ more. ok (with_entry rule path more) in
    if not rule.allow
    then err internal_deny_rule
    else if not (rule.type == block_device || rule.type == char_device)
    then err invalid_device_type
    else rest

abbrev pub emulated : Result Emulator.Error Emulator → Result Error Emulator
emulated (err e) = err (rule_failed e)
emulated (ok e) = ok e

-- `generateDeviceProperties` behind the emulator
unfoldable pub properties_for : Host → ℤ → Emulator → Result Error (List Property)
properties_for h version e =
    if is_blacklist e
    then ok (if is_allow_all e then allow_all_devices else strict_policy)
    else (allow_list h version (minimal_rules e) >>= λ list.
        ok (strict_policy ++ new_prop (codes "DeviceAllow") (entries list) ∷ []))

-- `generateDeviceProperties`, with `r.SkipDevices` and `r.Devices`
unfoldable pub generate_device_properties :
    Host → ℤ → Bool → List Rule → Result Error (List Property)
generate_device_properties h version skip_devices devices =
    if skip_devices
    then ok []
    else (emulated (apply_all deny_all devices) >>= λ e. properties_for h version e)
