-- ===== src/Tests/Spec.antt =====
-- The conversion of a specification at concrete inputs.
use libcontainer.Prelude.{
  ℕ, ◌≡◌, refl, inr, List, [], ◌∷◌, ◌++◌, Option, none, some, All, ok, false, ◌%◌, ◌^◌, arith, map,
}
use libcontainer.Prelude.Int.{ℤ, pos}
use libcontainer.Text.{Bytes, codes}
use libcontainer.Devices.{
  Rule, char_device, block_device, wildcard, wildcard_device, union, from_set, to_set,
}
use libcontainer.Namespaces.{new_user, path_of, index, path_at, contains}
use libcontainer.Mappings.{Config, host_uid, host_gid, host_id_from_mapping}
use libcontainer.Emulator.{Emulator, DeviceRule, deny_all, apply, apply_all, put, get, add_rule}
use libcontainer.Emulator.Apply.{reset-IsValid}
use libcontainer.Filter.Machine.{DeviceContext}
use libcontainer.Emulator.Grants.{refused}
use libcontainer.Spec.{Device, load, store, allowed_objects, Linux}
use libcontainer.Spec.Store.{allowed_objects-HasDefaults}
use libcontainer.Spec.Devices.{
  Creation, create_devices, device_rules, new_device, string_to_device_rune, cgroup_rule,
}
use libcontainer.Spec.Devices.Mknod.{IsGranted}
use libcontainer.Spec.Devices.Defaults.{device_rules-grants}
use libcontainer.Spec.Devices.Sharing.{default_nodes, create_devices-shares}
use libcontainer.Spec.Owners.{
  Maps, set_owner, set_owners, setup_user_namespace, with_spec_mappings, append_mappings,
}
use libcontainer.Spec.Owners.Roots.{owner_of, IsSettled, setup_user_namespace-IsSettled}

-- a specification that denies everything, with a device of its own in place of /dev/null
abbrev strict : Linux
strict = record {
  devices =
      record {
        path = codes "/dev/null";
        type = codes "c";
        major = pos 1;
        minor = pos 3;
        file_mode = none;
        uid = none;
        gid = none;
      }
      ∷ [];
  cgroups_path = [];
  resources = some (record {
    devices =
        record { allow = false; type = []; major = none; minor = none; access = codes "rwm" } ∷ [];
    memory = none;
    cpu = none;
    pids = none;
  });
  namespaces = [];
  uid_mappings = record { container_id = 0; host_id = 100000; size = 65536 } ∷ [];
  gid_mappings = record { container_id = 0; host_id = 200000; size = 65536 } ∷ [];
}

abbrev own_null : Device
own_null = record {
  rule = record {
    type = char_device;
    major = pos 1;
    minor = pos 3;
    permissions = [];
    allow = false;
  };
  path = codes "/dev/null";
  file_mode = 0o666;
  uid = 0;
  gid = 0;
}

abbrev made : Creation
made = record {
  heap = allowed_objects ++ own_null ∷ [];
  nodes = 3 ∷ 4 ∷ 5 ∷ 6 ∷ 7 ∷ 11 ∷ [];
  defaults = 0 ∷ 1 ∷ 3 ∷ 4 ∷ 5 ∷ 6 ∷ 7 ∷ 8 ∷ 9 ∷ 10 ∷ [];
}

create_devices_run : create_devices allowed_objects (some strict) [] ≡ ok made
unfolding create_devices load new_device string_to_device_rune
create_devices_run = refl

abbrev rule_at : ℕ → Rule
rule_at p = (load made.heap p).rule

abbrev strict_rules : List Rule
strict_rules =
    record {
      type = wildcard_device;
      major = wildcard;
      minor = wildcard;
      permissions = codes "rwm";
      allow = false;
    }
    ∷ map rule_at made.defaults

device_rules_run : device_rules made.heap (some strict) made.defaults ≡ ok strict_rules
unfolding device_rules cgroup_rule load
device_rules_run = refl

abbrev entry : ℕ → ℤ → ℤ → Bytes → DeviceRule
entry node major minor perms = record {
  meta = record { node = node; major = major; minor = minor };
  perms = perms;
}

abbrev strict_emulator : Emulator
strict_emulator = record {
  default_allow = false;
  rules =
      entry char_device wildcard wildcard (codes "m")
      ∷ entry block_device wildcard wildcard (codes "m")
      ∷ entry char_device (pos 1) (pos 8) (codes "rwm")
      ∷ entry char_device (pos 1) (pos 7) (codes "rwm")
      ∷ entry char_device (pos 5) (pos 0) (codes "rwm")
      ∷ entry char_device (pos 1) (pos 5) (codes "rwm")
      ∷ entry char_device (pos 1) (pos 9) (codes "rwm")
      ∷ entry char_device (pos 136) wildcard (codes "rwm")
      ∷ entry char_device (pos 5) (pos 2) (codes "rwm")
      ∷ entry char_device (pos 10) (pos 200) (codes "rwm")
      ∷ [];
}

apply_all_run : apply_all deny_all strict_rules ≡ ok strict_emulator
unfolding apply_all apply load put get add_rule union from_set to_set
apply_all_run = refl

-- mknod of the character device 42:7
abbrev mknod_request : DeviceContext
mknod_request = record { access_type = 0x10002; major = 42; minor = 7 }

device_rules-grants_example :
    All (λ p. refused strict_emulator (load made.heap p).rule ≡ 0) made.defaults
    × IsGranted strict_emulator mknod_request
device_rules-grants_example =
    device_rules-grants allowed_objects (some strict) [] made strict_rules deny_all strict_emulator
      char_device mknod_request allowed_objects-HasDefaults create_devices_run device_rules_run
      (reset-IsValid false) apply_all_run (inr refl) (record { device = refl; access = refl })

-- a second container of the same process
abbrev second : Creation
second = record {
  heap = set_owners made.heap made.nodes 100000 200000 ++ own_null ∷ [];
  nodes = 3 ∷ 4 ∷ 5 ∷ 6 ∷ 7 ∷ 12 ∷ [];
  defaults = made.defaults;
}

second_run :
    create_devices (set_owners made.heap made.nodes 100000 200000) (some strict) [] ≡ ok second
unfolding create_devices load new_device string_to_device_rune set_owners set_owner store
second_run = refl

create_devices-shares_example :
    (rest : List ℕ) × (second.nodes ≡ default_nodes allowed_objects strict ++ rest)
    × All
        (λ p. owner_of (load second.heap p) ≡ (100000 % 2 ^ 32, 200000 % 2 ^ 32))
        (default_nodes allowed_objects strict)
create_devices-shares_example =
    create_devices-shares allowed_objects strict strict made second 100000 200000
      allowed_objects-HasDefaults refl create_devices_run second_run

abbrev no_maps : Bytes → Option Maps
no_maps path = none

abbrev user_config : Config
user_config = record {
  namespaces = record { type = new_user; path = [] } ∷ [];
  uid_mappings = none;
  gid_mappings = none;
}

abbrev mapped_config : Config
mapped_config = record user_config {
  uid_mappings = some strict.uid_mappings;
  gid_mappings = some strict.gid_mappings;
}

setup_user_namespace_run :
    setup_user_namespace no_maps (some strict) user_config made.heap made.nodes
    ≡ ok (mapped_config, set_owners made.heap made.nodes 100000 200000)
unfolding setup_user_namespace with_spec_mappings append_mappings path_of index path_at host_uid
    host_gid contains host_id_from_mapping
setup_user_namespace_run = refl

setup_user_namespace-IsSettled_example :
    IsSettled no_maps
      (some strict)
      user_config
      made.nodes
      mapped_config
      (set_owners made.heap made.nodes 100000 200000)
setup_user_namespace-IsSettled_example =
    setup_user_namespace-IsSettled no_maps (some strict) user_config made.heap made.nodes
      mapped_config (set_owners made.heap made.nodes 100000 200000)
      (omega arith, (omega arith, (omega arith, (omega arith, (omega arith, (omega arith, tt))))))
      setup_user_namespace_run
