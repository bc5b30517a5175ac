-- ===== src/Spec/Devices.antt =====
-- `createDevices` of specconv/spec_linux.go, and the device rules that `CreateCgroupConfig` makes.
pub mod Created
pub mod Defaults
pub mod Mknod
pub mod Sharing
use libcontainer.Prelude.{
  ℕ, Bool, true, false, ◌&&◌, not, List, [], ◌∷◌, ◌++◌, Option, none, some, any, map, length,
  bytes_eq, if◌then◌else◌, Result, ok, err, ◌>>=◌,
}
use libcontainer.Prelude.Int.{ℤ, negsuc}
use libcontainer.Text.{Bytes, codes}
use libcontainer.Devices.{
  Rule, block_device, char_device, fifo_device, wildcard_device, wildcard, and_not,
}
use libcontainer.Spec.{
  Error, invalid_device_type, invalid_cgroup_device_type, empty_access, Device, Heap, load,
  allowed_devices, SpecDevice, SpecRule, Resources, Linux,
}

unfoldable pub string_to_cgroup_device_rune : Bytes → Result Error ℕ
string_to_cgroup_device_rune s =
    if bytes_eq s (codes "a")
    then ok wildcard_device
    else if bytes_eq s (codes "b")
    then ok block_device
    else if bytes_eq s (codes "c")
    then ok char_device
    else err invalid_cgroup_device_type

unfoldable pub string_to_device_rune : Bytes → Result Error ℕ
string_to_device_rune s =
    if bytes_eq s (codes "p")
    then ok fifo_device
    else if bytes_eq s (codes "u")
    then ok char_device
    else if bytes_eq s (codes "c")
    then ok char_device
    else if bytes_eq s (codes "b")
    then ok block_device
    else err invalid_device_type

abbrev pub is_named : Device → Bool
is_named d = not (bytes_eq d.path [])

-- whether the specification has a device at the path of a default one
abbrev pub is_redundant : Device → Option Linux → Bool
is_redundant ad none = false
is_redundant ad (some l) = is_named ad && any (λ sd. bytes_eq sd.path ad.path) l.devices

-- what the loop over the default devices has kept, and what it adds to `config.Devices`
pub record Kept : Type 0 where
  pub deduped : List ℕ
  pub nodes : List ℕ

unfoldable pub keep_allowed : Heap → Option Linux → List ℕ → Kept
keep_allowed h l [] = record { deduped = []; nodes = [] }
keep_allowed h l (p ∷ ps) =
    let rest = keep_allowed h l ps in
    if is_redundant (load h p) l then rest else record {
      deduped = p ∷ rest.deduped;
      nodes = if is_named (load h p) then p ∷ rest.nodes else rest.nodes;
    }

abbrev pub or_else {ℓ} : {A : Type ℓ} → Option A → A → A
or_else none default = default
or_else (some a) default = a

-- `unix.S_IFMT`
abbrev pub s_ifmt : ℕ
s_ifmt = 0xF000

abbrev pub default_mode : Option ℕ → ℕ
default_mode none = 0o666
default_mode (some mode) = and_not mode s_ifmt

unfoldable pub new_device : SpecDevice → Result Error Device
new_device d = do
  dt ← string_to_device_rune d.type
  ok (record {
    rule = record { type = dt; major = d.major; minor = d.minor; permissions = []; allow = false };
    path = d.path;
    file_mode = default_mode d.file_mode;
    uid = or_else d.uid 0;
    gid = or_else d.gid 0;
  })

-- the store and `config.Devices`
pub record Nodes : Type 0 where
  pub heap : Heap
  pub nodes : List ℕ

-- the loop over the specification's devices; each gets a new place in the store
unfoldable pub add_spec_devices : Nodes → List SpecDevice → Result Error Nodes
add_spec_devices n [] = ok n
add_spec_devices n (d ∷ ds) = do
  device ← new_device d
  add_spec_devices (record { heap = n.heap ++ device ∷ []; nodes = n.nodes ++ length n.heap ∷ [] })
      ds

abbrev pub spec_devices : Option Linux → List SpecDevice
spec_devices none = []
spec_devices (some l) = l.devices

pub record Creation : Type 0 where
  pub heap : Heap
  pub nodes : List ℕ
  pub defaults : List ℕ

-- `createDevices` on a configuration that holds the devices `nodes`
unfoldable pub create_devices : Heap → Option Linux → List ℕ → Result Error Creation
unfolding keep_allowed add_spec_devices
create_devices h l nodes =
    let kept = keep_allowed h l allowed_devices in
    do
      n ← add_spec_devices (record { heap = h; nodes = nodes ++ kept.nodes }) (spec_devices l)
      ok (record { heap = n.heap; nodes = n.nodes; defaults = kept.deduped })

-- the type of a rule that names none
abbrev pub type_or_all : Bytes → Bytes
type_or_all t = if bytes_eq t [] then codes "a" else t

-- a device rule of the specification, in `CreateCgroupConfig`
unfoldable pub cgroup_rule : SpecRule → Result Error Rule
unfolding string_to_cgroup_device_rune
cgroup_rule d =
    let dt = string_to_cgroup_device_rune (type_or_all d.type) in
    if bytes_eq d.access []
    then err empty_access
    else (dt >>= λ t. ok (record {
      type = t;
      major = or_else d.major (negsuc 0);
      minor = or_else d.minor (negsuc 0);
      permissions = d.access;
      allow = d.allow;
    }))

unfoldable pub cgroup_rules : List SpecRule → Result Error (List Rule)
cgroup_rules [] = ok []
cgroup_rules (d ∷ ds) = do r ← cgroup_rule d; rs ← cgroup_rules ds; ok (r ∷ rs)

abbrev pub resource_rules : Option Resources → List SpecRule
resource_rules none = []
resource_rules (some r) = r.devices

abbrev pub linux_rules : Option Linux → List SpecRule
linux_rules none = []
linux_rules (some l) = resource_rules l.resources

-- the device rules of a container: those of the specification, then those of the default devices
unfoldable pub device_rules : Heap → Option Linux → List ℕ → Result Error (List Rule)
unfolding cgroup_rules
device_rules h l defaults = do
  rs ← cgroup_rules (linux_rules l)
  ok (rs ++ map (λ p. (load h p).rule) defaults)
