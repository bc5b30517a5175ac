-- ===== src/Validate.antt =====
-- configs/validate: the checks of a configuration that look only at the configuration and at a few
-- answers of the host, which are a record of their own. The checks of the root file system, of
-- sysctls, of Intel RDT, of mounts and of the mounts of rootless
-- containers are left out.
pub mod Accepted
use libcontainer.Prelude.{
  Bool, true, false, ◌&&◌, ◌||◌, not, List, [], ◌∷◌, Option, none, some, if◌then◌else◌, bytes_eq,
  Result, ok, err, ◌>>=◌,
}
use libcontainer.Prelude.Int.{ℤ}
use libcontainer.Text.{Bytes}
use libcontainer.Namespaces.{
  Namespace, contains, path_of, new_net, new_uts, new_ns, new_user, new_cgroup,
}
use libcontainer.Mappings.{IdMapping}
use libcontainer.Convert.{convert_memory_swap}

pub record Resources : Type 0 where
  pub memory : ℤ
  pub memory_swap : ℤ
  pub has_unified : Bool

pub record Cgroup : Type 0 where
  pub name : Bytes
  pub parent : Bytes
  pub path : Bytes
  pub resources : Option Resources

-- The fields of `Config` that these checks read; of networks, routes and paths, whether there are
-- any. `none` is a nil slice or pointer.
pub record Config : Type 0 where
  pub namespaces : List Namespace
  pub has_networks : Bool
  pub has_routes : Bool
  pub hostname : Bytes
  pub has_mask_paths : Bool
  pub has_readonly_paths : Bool
  pub process_label : Bytes
  pub uid_mappings : Option (List IdMapping)
  pub gid_mappings : Option (List IdMapping)
  pub cgroups : Option Cgroup

-- what the host answers
pub record Host : Type 0 where
  pub has_selinux : Bool
  pub has_user_namespaces : Bool
  pub has_cgroup_namespaces : Bool
  pub is_unified : Bool

pub data Error : Type 0 where
  network_without_netns hostname_without_utsns restriction_without_mntns selinux_disabled : Error
  no_user_namespaces no_path_nor_mappings mappings_without_userns no_cgroup_namespaces : Error
  rootless_without_userns no_uid_mapping no_gid_mapping : Error
  path_and_name v1_no_unified bad_swap other : Error

abbrev pub Status : Type 0
Status = Result {0, 0} Error Unit

abbrev pub fails_if : Bool → Error → Status
fails_if true e = err e
fails_if false e = ok tt

abbrev pub is_set {ℓ} : {A : Type ℓ} → Option A → Bool
is_set none = false
is_set (some a) = true

unfoldable pub network : Config → Status
network c =
    fails_if (not (contains c.namespaces new_net) && (c.has_networks || c.has_routes))
      network_without_netns

unfoldable pub hostname_check : Config → Status
hostname_check c =
    fails_if (not (bytes_eq c.hostname []) && not (contains c.namespaces new_uts))
      hostname_without_utsns

unfoldable pub security : Host → Config → Status
security h c = do
  _ ←
      fails_if ((c.has_mask_paths || c.has_readonly_paths) && not (contains c.namespaces new_ns))
        restriction_without_mntns
  fails_if (not (bytes_eq c.process_label []) && not h.has_selinux) selinux_disabled

unfoldable pub usernamespace : Host → Config → Status
usernamespace h c =
    let has_mappings = is_set c.uid_mappings || is_set c.gid_mappings in
    let has_path = not (bytes_eq (path_of c.namespaces new_user) []) in
    if contains c.namespaces new_user
    then if not h.has_user_namespaces
      then err no_user_namespaces
      else fails_if (not has_path && not has_mappings) no_path_nor_mappings
    else fails_if has_mappings mappings_without_userns

unfoldable pub cgroupnamespace : Host → Config → Status
cgroupnamespace h c =
    fails_if (contains c.namespaces new_cgroup && not h.has_cgroup_namespaces) no_cgroup_namespaces

abbrev pub swap_check : Resources → Status
swap_check r = elim (convert_memory_swap r.memory_swap r.memory) [
  | ok _ ↦ ok tt
  | err _ ↦ err bad_swap
]

abbrev pub resources_check : Host → Option Resources → Status
resources_check h none = ok tt
resources_check h (some r) =
    if not h.is_unified && r.has_unified
    then err v1_no_unified
    else if h.is_unified
    then swap_check r
    else ok tt

abbrev pub cgroup_check : Host → Option Cgroup → Status
cgroup_check h none = ok tt
cgroup_check h (some c) =
    if (not (bytes_eq c.name []) || not (bytes_eq c.parent [])) && not (bytes_eq c.path [])
    then err path_and_name
    else resources_check h c.resources

-- `len(m) == 0`
abbrev pub is_empty : Option (List IdMapping) → Bool
is_empty none = true
is_empty (some []) = true
is_empty (some (m ∷ ms)) = false

-- `rootlessEUIDMappings` of rootless.go
unfoldable pub rootless_mappings : Config → Status
rootless_mappings c =
    if not (contains c.namespaces new_user)
    then err rootless_without_userns
    else if not (bytes_eq (path_of c.namespaces new_user) [])
    then ok tt
    else if is_empty c.uid_mappings
    then err no_uid_mapping
    else fails_if (is_empty c.gid_mappings) no_gid_mapping
