-- ===== src/Emulator/Listing.antt =====
-- `parseLine` and `EmulatorFromList` of cgroups/devices/devices_emulator.go, and
-- `(*Rule).CgroupString` of devices/device.go, which prints what they read.
pub mod RoundTrip
pub mod Rebuild
use libcontainer.Prelude.{
  ℕ, Bool, true, false, ◌&&◌, ◌||◌, not, List, [], ◌∷◌, ◌++◌, Option, none, some, ◌==◌,
  if◌then◌else◌, bytes_eq, Result, ok, err, ◌>>=◌,
}
use libcontainer.Prelude.Int.{ℤ, pos, eq_ℤ}
use libcontainer.Text.{Bytes, codes, Reader, NumError, parse_uint, format_int, fields_func}
use libcontainer.Devices.{
  Permissions, is_empty, is_valid, wildcard, block_device, char_device, Rule,
}
use libcontainer.Emulator.{
  DeviceMeta, DeviceRule, Emulator, Error, malformed_rule, unknown_device_type, invalid_major,
  invalid_minor, invalid_access, read_failed, parse_list, add_list, wrap_err, allow, deny_all,
}

abbrev pub is_separator : ℕ → Bool
is_separator c = c == b' ' || c == b':'

-- the switch on the node; `none` is the rule for all devices
unfoldable pub parse_node : Bytes → Result Error (Option ℕ)
parse_node node =
    if bytes_eq node (codes "a")
    then ok none
    else if bytes_eq node (codes "b")
    then ok (some block_device)
    else if bytes_eq node (codes "c")
    then ok (some char_device)
    else err unknown_device_type

-- a major or minor number; `e` is the error of a bad one
unfoldable pub parse_number : Error → Bytes → Result Error ℤ
parse_number e s =
    if bytes_eq s (codes "*")
    then ok wildcard
    else elim (parse_uint 32 s) [ ok n ↦ ok (pos n) | err _ ↦ err e ]

unfoldable pub parse_access : Bytes → Result Error Permissions
parse_access perms = if not (is_valid perms) || is_empty perms then err invalid_access else ok perms

unfoldable pub parse_fields : List Bytes → Result Error (Option DeviceRule)
parse_fields (node ∷ major ∷ minor ∷ perms ∷ []) = do
  n ← parse_node node
  elim n [
    | none ↦ ok none
    | some t ↦ do
      i ← parse_number invalid_major major
      j ← parse_number invalid_minor minor
      p ← parse_access perms
      ok (some (record { meta = record { node = t; major = i; minor = j }; perms = p }))
  ]
parse_fields _ = err malformed_rule

unfoldable pub parse_line : Bytes → Result Error (Option DeviceRule)
unfolding parse_fields parse_node parse_number parse_access
parse_line line = parse_fields (fields_func is_separator line)

-- the scanner's loop
unfoldable pub allow_lines : Emulator → List Bytes → Result Error Emulator
unfolding parse_line
allow_lines e [] = ok e
allow_lines e (line ∷ rest) = do
  rule ← wrap_err parse_list (parse_line line)
  e' ← wrap_err add_list (allow e rule)
  allow_lines e' rest

unfoldable pub emulator_from_list : Reader → Result Error Emulator
unfolding allow_lines
emulator_from_list list = do
  e ← allow_lines deny_all list.lines
  if list.fails then err read_failed else ok e

-- a device number in a rule
unfoldable pub number_string : ℤ → Bytes
unfolding format_int
number_string n = if eq_ℤ n wildcard then codes "*" else format_int n

-- `(*Rule).CgroupString`, for a type that is an ASCII character
unfoldable pub cgroup_string : Rule → Bytes
unfolding number_string
cgroup_string d =
    d.type
    ∷ b' '
    ∷ (number_string d.major ++ (b':' ∷ (number_string d.minor ++ (b' ' ∷ d.permissions))))
