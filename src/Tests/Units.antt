-- ===== src/Tests/Units.antt =====
-- The properties of a systemd unit, the path of a slice and the start of a unit at concrete inputs.
use libcontainer.Prelude.{
  ◌*◌, ◌%◌, ◌+◌, ◌≤◌, ◌<◌, Bool, true, false, List, [], ◌∷◌, ◌++◌, none, some, bytes_eq,
  if◌then◌else◌, ok, ◌≡◌, ◌≢◌, ◌⊎◌, inl, inr, refl, arith, All,
}
use libcontainer.Prelude.Int.{pos, eq_ℤ}
use libcontainer.Text.{codes, trim_space}
use libcontainer.Text.Split.{join}
use libcontainer.Devices.{Rule, wildcard, union, to_set, from_set}
use libcontainer.Emulator.{
  DeviceMeta, Emulator, apply, apply_all, deny_all, add_rule, as_rule, get, put,
}
use libcontainer.Emulator.Loops.{entry}
use libcontainer.Systemd.{DeviceAllowEntry}
use libcontainer.Systemd.Devices.{
  Host, group_prefix, find_in_lines, find_device_group, generate_device_properties,
}
use libcontainer.Systemd.Devices.Paths.{FindsGroups}
use libcontainer.Systemd.Devices.Listed.{IsAllowed, CoversSingle}
use libcontainer.Systemd.Devices.Allowed.{white_list, generate_device_properties-white_list}
use libcontainer.Systemd.Limits.{per_second}
use libcontainer.Systemd.Limits.Rounding.{exact, per_second_rounds}
use libcontainer.Systemd.Slices.{slice_suffix, expand_slice}
use libcontainer.Systemd.Slices.Nested.{IsComponent, nested, expand_slice-nested}
use libcontainer.Systemd.Units.{
  Reply, closed, replied, Bus, Ends, Reconnects, retry_on_disconnect, manager_of, started,
  unit_exists, done, start_unit_on,
}
use libcontainer.Systemd.Units.Retry.{IsFinal, start_unit-IsFinal}

abbrev null_device : DeviceMeta
null_device = record { node = b'c'; major = pos 1; minor = pos 3 }

-- all devices of the group "mem"
abbrev memory_devices : DeviceMeta
memory_devices = record { node = b'c'; major = pos 1; minor = wildcard }

abbrev host : Host
host = record {
  proc_devices = some (record {
    lines = codes "Character devices:" ∷ codes "  1 mem" ∷ [] ∷ codes "Block devices:" ∷ [];
    fails = false;
  });
  scan_line = λ s. if bytes_eq s (codes "1 mem") then some (pos 1, codes "mem") else none;
  path_exists = λ s. true;
}

host-FindsGroups : FindsGroups host
unfolding find_device_group find_in_lines group_prefix trim_space
host-FindsGroups t major (inl b) = ([], rw b refl)
host-FindsGroups t major (inr c) =
    (if eq_ℤ (pos 1) major then codes "char-mem" else [], rw c (ground arith))

abbrev rules : List Rule
rules = as_rule true null_device (codes "rw") ∷ as_rule true memory_devices (codes "r") ∷ []

abbrev table : Emulator
table = record {
  default_allow = false;
  rules = entry null_device (codes "rw") ∷ entry memory_devices (codes "r") ∷ [];
}

table_run : apply_all deny_all rules ≡ ok table
unfolding apply_all apply add_rule get put union to_set from_set
table_run = refl

generate_device_properties-white_list_example :
    (list : List DeviceAllowEntry) × (generate_device_properties host (pos 239) false rules
      ≡ ok (white_list list))
    × All (IsAllowed host table.rules) list
    × CoversSingle host (pos 239) table.rules list
generate_device_properties-white_list_example =
    generate_device_properties-white_list host (pos 239) rules table table_run refl host-FindsGroups

per_second_rounds_example :
    (per_second (pos 1000) 99999 % 10000 ≡ 0)
    × (exact 1000 99999 ≤ per_second (pos 1000) 99999)
    × (per_second (pos 1000) 99999 < exact 1000 99999 + 10000)
    × ((1000 * 1000000 % 99999 ≡ 0) ⊎ (exact 1000 99999 % 10000 ≢ 0)
        → 1000 * 1000000 ≤ per_second (pos 1000) 99999 * 99999)
    × (1000 * 1000000 % 99999 ≢ 0
        → exact 1000 99999 % 10000 ≡ 0
        → per_second (pos 1000) 99999 * 99999 < 1000 * 1000000)
per_second_rounds_example = per_second_rounds 1000 99999 (omega arith) (omega arith) (omega arith)

-- 1000 of 99999 microseconds are 10000.1 for each second; the property has 10000.
short_quota : per_second (pos 1000) 99999 ≡ 10000
unfolding per_second
short_quota = refl

user-IsComponent : IsComponent (codes "user")
user-IsComponent = record {
  filled = λ e. ground (arith, e);
  no_dash = (refl, (refl, (refl, (refl, tt))));
  no_slash = (refl, (refl, (refl, (refl, tt))));
}

a-IsComponent : IsComponent (codes "a")
a-IsComponent = record {
  filled = λ e. ground (arith, e);
  no_dash = (refl, tt);
  no_slash = (refl, tt);
}

expand_slice-nested_example :
    expand_slice (join b'-' (codes "user") (codes "a" ∷ []) ++ slice_suffix)
    ≡ some (nested [] (codes "user") (codes "a" ∷ []))
expand_slice-nested_example =
    expand_slice-nested (codes "user") (codes "a" ∷ []) user-IsComponent (a-IsComponent, tt)

nested_run : nested [] (codes "user") (codes "a" ∷ []) ≡ codes "/user.slice/user-a.slice"
nested_run = refl

-- A unit that exists until it is reset, on a connection that is closed at the first call; the state
-- tells whether the unit exists, and whether the connection holds.
abbrev reply : {A : Type 0} → A → Bool × Bool → Reply A × (Bool × Bool)
reply a (exists, true) = (replied a, (exists, true))
reply a (exists, false) = (closed, (exists, true))

abbrev clean : Bool × Bool → Reply (Unit {0}) × (Bool × Bool)
clean (exists, true) = (replied tt, (false, true))
clean (exists, false) = (closed, (exists, true))

abbrev leftover : Bus (Bool × Bool)
leftover = record {
  start = λ s. reply (if s.0 then unit_exists else started) s;
  stop = λ s. reply true s;
  job = λ s. (done, s);
  reset = clean;
}

start-Ends : Ends leftover.start
unfolding retry_on_disconnect
start-Ends (e, true) = (1, (if e then unit_exists else started, (e, true)), refl)
start-Ends (e, false) = (2, (if e then unit_exists else started, (e, true)), refl)

stop-Ends : Ends leftover.stop
unfolding retry_on_disconnect
stop-Ends (e, true) = (1, (true, (e, true)), refl)
stop-Ends (e, false) = (2, (true, (e, true)), refl)

reset-Ends : Ends leftover.reset
unfolding retry_on_disconnect
reset-Ends (e, true) = (1, (tt, (false, true)), refl)
reset-Ends (e, false) = (2, (tt, (false, true)), refl)

abbrev leftover-Reconnects : Reconnects leftover
leftover-Reconnects = record {
  start_ends = start-Ends;
  stop_ends = stop-Ends;
  reset_ends = reset-Ends;
}

start_unit-IsFinal_example :
    IsFinal
      (manager_of leftover leftover-Reconnects)
      false
      (start_unit_on leftover leftover-Reconnects 2 false (true, false))
start_unit-IsFinal_example =
    start_unit-IsFinal leftover leftover-Reconnects 2 false (true, false) (omega arith)
