-- ===== src/Systemd/Legacy/Paths/Found.antt =====
-- The paths that `initPaths` of cgroups/systemd/v1.go gives.
use libcontainer.Prelude.{[], some, ◌≡◌, ◌≢◌, All}
use libcontainer.Text.{Bytes, codes}
use libcontainer.Cgroups.Listing.{Assignments, lookup}
use libcontainer.Systemd.Slices.{get_unit_name}
use libcontainer.Systemd.Legacy.{legacy_subsystems}
use libcontainer.Systemd.Legacy.Paths.{Mounts, Place, slice_of}
use libcontainer.Systemd.Legacy.Paths.Searches.{path_for, Searched, HybridPath}

-- What the paths must be: in a slice, with the devices controller, for each name but the hybrid one
-- below the mount point of the controller, none of which the search failed for, and for the empty
-- name the hybrid path.
pub record IsFound (m : Mounts) (c : Place) (paths : Assignments) : Type 0 where
  pub slice : Bytes
  pub in_slice : slice_of c.parent ≡ some slice
  pub devices : (p : Bytes) × (lookup (codes "devices") paths ≡ some p)
  pub others :
      (k : Bytes)
      → k ≢ []
      → lookup k paths ≡ path_for m slice (get_unit_name c.name c.scope_prefix) legacy_subsystems k
  pub searched : All (Searched m slice (get_unit_name c.name c.scope_prefix)) legacy_subsystems
  pub hybrid : HybridPath m slice (get_unit_name c.name c.scope_prefix) (lookup [] paths)
