-- ===== src/Systemd/Devices/Allowed.antt =====
-- What `generateDeviceProperties` of cgroups/systemd/common.go tells systemd to allow, against the
-- table of the emulator.
use libcontainer.Prelude.{
  true, false, List, [], ◌∷◌, ◌++◌, ok, ◌≡◌, sym, ◌∙◌, subst, arith, All, All-imp,
}
use libcontainer.Prelude.Int.{ℤ}
use libcontainer.Text.{codes}
use libcontainer.Devices.{Rule}
use libcontainer.Emulator.{
  DeviceMeta, Emulator, get, apply_all, deny_all, is_blacklist, rules_for_changes, ordered_entries,
}
use libcontainer.Emulator.Table.{
  own_value, get-ordered_entries, ordered_entries-IsUnique, ordered_entries-All,
}
use libcontainer.Emulator.Apply.{IsEntry, apply_all-IsValid, reset-IsValid}
use libcontainer.Emulator.Transition.{minimal_rules_plain}
use libcontainer.Systemd.{DeviceAllowEntry, Property, new_prop, entries}
use libcontainer.Systemd.Devices.{
  Host, strict_policy, allow_list, generate_device_properties, properties_for,
}
use libcontainer.Systemd.Devices.Paths.{path_of, FindsGroups}
use libcontainer.Systemd.Devices.Listed.{IsAllowed, CoversSingle, listed, lists}

-- The properties of a unit in white-list mode.
abbrev pub white_list : List DeviceAllowEntry → List Property
white_list list = strict_policy ++ new_prop (codes "DeviceAllow") (entries list) ∷ []

properties-white_list :
    (h : Host) (version : ℤ) (e : Emulator) (list : List DeviceAllowEntry)
    → e.default_allow ≡ false
    → allow_list h version (rules_for_changes true [] (ordered_entries e.rules)) ≡ ok list
    → properties_for h version e ≡ ok (white_list list)
unfolding properties_for is_blacklist
properties-white_list h version e list mode made =
    rw (minimal_rules_plain e mode, made) (ground (arith, mode))

-- If the rules of a container leave the emulator in white-list mode, and the search for a group does
-- not fail, then generateDeviceProperties returns the strict policy with a list. Each entry of it has
-- the permissions that the table has for a device, and a path that stands for it: the prefix of the
-- type and "*" for every device of a type; the prefix of the type and a name that /proc/devices has
-- for the major number under the header of that type, for every minor number; or /dev/block or
-- /dev/char with the two numbers. Each single device of the table that systemd takes by its path is in
-- the list, with its permissions.
pub generate_device_properties-white_list :
    (h : Host) (version : ℤ) (devices : List Rule) (e : Emulator)
    → apply_all deny_all devices ≡ ok e
    → e.default_allow ≡ false
    → FindsGroups h
    → (list : List DeviceAllowEntry) × (generate_device_properties h version false devices
        ≡ ok (white_list list))
      × All (IsAllowed h e.rules) list
      × CoversSingle h version e.rules list
unfolding generate_device_properties
generate_device_properties-white_list h version devices e applied mode finds =
    let v = apply_all-IsValid devices deny_all e (reset-IsValid false) applied in
    let es = ordered_entries e.rules in
    let u = ordered_entries-IsUnique e.rules v.unique in
    let values = λ (m : DeviceMeta). get-ordered_entries e.rules m v.unique in
    let l = listed h version finds e.rules es (ordered_entries-All IsEntry e.rules v.entries) (
      All-imp (λ r. get es r.meta ≡ r.perms) (λ r. get e.rules r.meta ≡ r.perms)
        (λ r q. sym (values r.meta) ∙ q) es (own_value es u)) in
    (
      l.list,
      rw applied (properties-white_list h version e l.list mode l.made),
      l.sound,
      λ m ne s t.
          subst (λ p. lists (path_of m) p l.list ≡ true) (values m)
            (l.covers m (λ z. ne (sym (values m) ∙ z)) s t),
    )
