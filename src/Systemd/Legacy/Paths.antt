-- ===== src/Systemd/Legacy/Paths.antt =====
-- cgroups/systemd/v1.go: `initPaths`. The search for a mount point, the mode of the hierarchy and
-- `filepath.Join` are arguments.
pub mod Searches
pub mod Found
use libcontainer.Prelude.{
  Bool, true, false, List, [], ◌∷◌, Option, none, some, bytes_eq, if◌then◌else◌, Result, ok, err,
  ◌>>=◌,
}
use libcontainer.Text.{Bytes, codes}
use libcontainer.Cgroups.Listing.{Assignments}
use libcontainer.Systemd.Slices.{expand_slice, get_unit_name}
use libcontainer.Systemd.Legacy.{legacy_subsystems}

-- what FindCgroupMountpoint answers
pub data MountAnswer : Type 0 where
  mounted : Bytes → MountAnswer
  not_found search_failed : MountAnswer

pub data Error : Type 0 where
  bad_slice hierarchy_missing mounts_unread : Error

pub record Mounts : Type 0 where
  pub find : Bytes → MountAnswer
  pub is_hybrid : Bool
  pub join : Bytes → Bytes → Bytes → Bytes

-- the fields of `configs.Cgroup` that name a group
pub record Place : Type 0 where
  pub name : Bytes
  pub scope_prefix : Bytes
  pub parent : Bytes

abbrev pub slice_of : Bytes → Option Bytes
slice_of parent = if bytes_eq parent [] then some (codes "system.slice") else expand_slice parent

module _ (m : Mounts) (slice unit : Bytes) where
  abbrev pub below : MountAnswer → MountAnswer
  below (mounted mountpoint) = mounted (m.join mountpoint slice unit)
  below not_found = not_found
  below search_failed = search_failed

  -- `getSubsystemPath`
  abbrev pub get_subsystem_path : Bytes → MountAnswer
  get_subsystem_path subsystem = below (m.find subsystem)

  abbrev pub add_path : Bytes → MountAnswer → Result Error Assignments → Result Error Assignments
  add_path s (mounted path) rest = rest >>= λ paths. ok ((s, path) ∷ paths)
  add_path s not_found rest = if bytes_eq s (codes "devices") then err hierarchy_missing else rest
  add_path s search_failed rest = err mounts_unread

  -- the loop over the subsystems
  unfoldable pub subsystem_paths : List Bytes → Result Error Assignments
  subsystem_paths [] = ok []
  subsystem_paths (s ∷ names) = add_path s (get_subsystem_path s) (subsystem_paths names)

  abbrev pub add_hybrid : MountAnswer → Assignments → Result Error Assignments
  add_hybrid (mounted path) paths = ok (([], path) ∷ paths)
  add_hybrid not_found paths = err hierarchy_missing
  add_hybrid search_failed paths = ok (([], []) ∷ paths)

  abbrev pub with_hybrid : Assignments → Result Error Assignments
  with_hybrid paths = if m.is_hybrid then add_hybrid (get_subsystem_path []) paths else ok paths

  abbrev pub paths_below : Result Error Assignments
  paths_below = subsystem_paths legacy_subsystems >>= λ paths. with_hybrid paths

-- `initPaths`
unfoldable pub init_paths : Mounts → Place → Result Error Assignments
init_paths m c = elim (slice_of c.parent) [
  | none ↦ err bad_slice
  | some slice ↦ paths_below m slice (get_unit_name c.name c.scope_prefix)
]
