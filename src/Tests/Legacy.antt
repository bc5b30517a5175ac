-- ===== src/Tests/Legacy.antt =====
-- The update of a group of cgroup v1 and its paths at concrete inputs.
use libcontainer.Prelude.{
  ℕ, true, false, List, [], ◌∷◌, ◌++◌, none, some, bytes_eq, if◌then◌else◌, ok, err, ◌≡◌, refl,
  ◌==◌, any,
}
use libcontainer.Prelude.Int.{pos}
use libcontainer.Text.{Bytes, codes}
use libcontainer.Freezer.{thawed}
use libcontainer.Cgroups.Listing.{Assignments, lookup}
use libcontainer.Systemd.Cpuset.{BigInt}
use libcontainer.Systemd.Devices.{Host}
use libcontainer.Systemd.Limits.{Resources}
use libcontainer.Systemd.Legacy.{Update, World, legacy_set, get_freezer_state}
use libcontainer.Systemd.Legacy.Freezing.{IsHeld, legacy_set-IsHeld}
use libcontainer.Systemd.Legacy.Paths.{Mounts, Place, mounted, not_found, init_paths}

-- A group that keeps the last state of its freezer.
abbrev world : World Bytes
world = record {
  device_policy_auto = λ s. true;
  device_allow_empty = λ s. false;
  get_state = λ path s. some s;
  set_state = λ path state s. (true, state);
  set_unit_properties = λ props s. (true, s);
  set_controller = λ name path s. (true, s);
}

abbrev paths : Assignments
paths = (codes "freezer", codes "/f/a") ∷ (codes "cpu", codes "/c/a") ∷ []

abbrev resources : Resources
resources = record {
  skip_devices = true;
  devices = [];
  memory = pos 0;
  memory_reservation = pos 0;
  memory_swap = pos 0;
  cpu_shares = 2;
  cpu_weight = 0;
  cpu_quota = pos 0;
  cpu_period = 0;
  blkio_weight = 0;
  pids_limit = pos 7;
  cpuset_cpus = [];
  cpuset_mems = [];
  unified = [];
}

abbrev update : Update
update = record {
  resources = resources;
  has_unified = false;
  skip_freeze_on_set = false;
  freezer = thawed;
}

abbrev host : Host
host = record { proc_devices = none; scan_line = λ s. none; path_exists = λ s. false }

abbrev no_bits : BigInt (List ℕ)
no_bits = record {
  nothing = [];
  set_bit = λ b i. i ∷ b;
  bit = λ b j. any (λ x. x == j) b;
  bytes = λ b. [];
  bit_nothing = λ i. refl;
  bit-set_bit = λ b i j. refl;
}

known_state : get_freezer_state world paths thawed ≡ some thawed
unfolding lookup
known_state = refl

legacy_set-IsHeld_example :
    IsHeld world paths thawed thawed
      (legacy_set world paths no_bits host (pos 245) (some update) thawed)
legacy_set-IsHeld_example =
    legacy_set-IsHeld world paths no_bits host (pos 245) update thawed thawed refl known_state

abbrev mounts : Mounts
mounts = record {
  find = λ s.
      if bytes_eq s (codes "rdma")
      then not_found
      else if bytes_eq s (codes "misc")
      then not_found
      else mounted (codes "/sys/fs/cgroup/" ++ s);
  is_hybrid = false;
  join = λ m s u. m ++ (b'/' ∷ s ++ b'/' ∷ u);
}

abbrev place : Place
place = record { name = codes "c1"; scope_prefix = codes "runc"; parent = [] }

abbrev found : Assignments
found = elim (init_paths mounts place) [ err e ↦ [] | ok p ↦ p ]
