-- ===== src/Spec.antt =====
-- specconv/spec_linux.go: the parts of an OCI specification that are read here, and the objects of
-- devices/device.go that pointers are passed to. A nil pointer is `none`. The store of device
-- objects is a list and a pointer is a place in it, so that two lists can hold the same device.
pub mod Devices
pub mod Store
pub mod Owners
pub mod Kinds
pub mod Mounts
pub mod Profile
pub mod Properties
use libcontainer.Prelude.{ℕ, zero, suc, Bool, true, false, List, [], ◌∷◌, ◌++◌, Option, none, some}
use libcontainer.Prelude.Int.{ℤ, pos}
use libcontainer.Text.{Bytes, codes}
use libcontainer.Devices.{Rule, block_device, char_device, wildcard}
use libcontainer.Mappings.{IdMapping}

-- `index_panic` is the run-time panic of an index out of range
pub data Error : Type 0 where
  invalid_device_type invalid_cgroup_device_type empty_access invalid_cgroups_path : Error
  short_property_name odd_property_name bad_property_value not_a_number : Error
  index_panic : Error
  unknown_namespace duplicate_namespace : Error
  unreadable_mappings other_mappings no_root_uid no_root_gid : Error

-- `Device` of devices/device.go, with the embedded rule as a field
pub record Device : Type 0 where
  pub rule : Rule
  pub path : Bytes
  pub file_mode : ℕ
  pub uid : ℕ
  pub gid : ℕ

abbrev pub Heap : Type 0
Heap = List Device

abbrev pub no_device : Device
no_device = record {
  rule = record { type = 0; major = pos 0; minor = pos 0; permissions = []; allow = false };
  path = [];
  file_mode = 0;
  uid = 0;
  gid = 0;
}

-- the object that a pointer stands for; no pointer of the program leads out of the store
unfoldable pub load : Heap → ℕ → Device
load [] p = no_device
load (d ∷ h) zero = d
load (d ∷ h) (suc p) = load h p

unfoldable pub store : Heap → ℕ → Device → Heap
store [] p new = []
store (d ∷ h) zero new = new ∷ h
store (d ∷ h) (suc p) new = d ∷ store h p new

-- a device without a path
abbrev pub rule_only : ℕ → ℤ → ℤ → Bytes → Device
rule_only type major minor permissions = record no_device {
  rule = record {
    type = type;
    major = major;
    minor = minor;
    permissions = permissions;
    allow = true;
  };
}

-- a character device with a path
abbrev pub char_node : Bytes → ℕ → ℕ → Device
char_node path major minor = record (rule_only char_device (pos major) (pos minor) (codes "rwm")) {
  path = path;
  file_mode = 0o666;
}

-- `AllowedDevices`: the objects, which stand first in the store, and the pointers to them
abbrev pub allowed_objects : List Device
allowed_objects =
    rule_only char_device wildcard wildcard (codes "m")
    ∷ rule_only block_device wildcard wildcard (codes "m")
    ∷ char_node (codes "/dev/null") 1 3
    ∷ char_node (codes "/dev/random") 1 8
    ∷ char_node (codes "/dev/full") 1 7
    ∷ char_node (codes "/dev/tty") 5 0
    ∷ char_node (codes "/dev/zero") 1 5
    ∷ char_node (codes "/dev/urandom") 1 9
    ∷ rule_only char_device (pos 136) wildcard (codes "rwm")
    ∷ rule_only char_device (pos 5) (pos 2) (codes "rwm")
    ∷ rule_only char_device (pos 10) (pos 200) (codes "rwm")
    ∷ []

abbrev pub allowed_devices : List ℕ
allowed_devices = 0 ∷ 1 ∷ 2 ∷ 3 ∷ 4 ∷ 5 ∷ 6 ∷ 7 ∷ 8 ∷ 9 ∷ 10 ∷ []

-- the records of the runtime specification that the conversion reads
pub record SpecDevice : Type 0 where
  pub path : Bytes
  pub type : Bytes
  pub major : ℤ
  pub minor : ℤ
  pub file_mode : Option ℕ
  pub uid : Option ℕ
  pub gid : Option ℕ

pub record SpecRule : Type 0 where
  pub allow : Bool
  pub type : Bytes
  pub major : Option ℤ
  pub minor : Option ℤ
  pub access : Bytes

pub record SpecMemory : Type 0 where
  pub limit : Option ℤ
  pub reservation : Option ℤ
  pub swap : Option ℤ
  pub swappiness : Option ℕ
  pub disable_oom_killer : Option Bool

pub record SpecCpu : Type 0 where
  pub shares : Option ℕ
  pub quota : Option ℤ
  pub period : Option ℕ
  pub realtime_runtime : Option ℤ
  pub realtime_period : Option ℕ
  pub cpus : Bytes
  pub mems : Bytes

pub record Resources : Type 0 where
  pub devices : List SpecRule
  pub memory : Option SpecMemory
  pub cpu : Option SpecCpu
  pub pids : Option ℤ

pub record SpecNamespace : Type 0 where
  pub type : Bytes
  pub path : Bytes

pub record Linux : Type 0 where
  pub devices : List SpecDevice
  pub cgroups_path : Bytes
  pub resources : Option Resources
  pub namespaces : List SpecNamespace
  pub uid_mappings : List IdMapping
  pub gid_mappings : List IdMapping

-- an annotation: its key and its value
pub record Annotation : Type 0 where
  pub key : Bytes
  pub value : Bytes

pub record Spec : Type 0 where
  pub annotations : List Annotation
  pub linux : Option Linux
