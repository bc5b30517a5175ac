-- ===== src/Tests/Validate.antt =====
-- The checks of a configuration at a concrete one.
use libcontainer.Prelude.{true, false, [], ◌∷◌, none, some, ◌≡◌, refl, ok}
use libcontainer.Text.{codes}
use libcontainer.Namespaces.{contains, index, path_of, path_at, new_net, new_uts, new_user}
use libcontainer.Validate.{Config, Host, network, hostname_check, security, usernamespace}

abbrev host : Host
host = record {
  has_selinux = false;
  has_user_namespaces = true;
  has_cgroup_namespaces = true;
  is_unified = true;
}

abbrev config : Config
config = record {
  namespaces =
      record { type = new_net; path = [] }
      ∷ record { type = new_uts; path = [] }
      ∷ record { type = new_user; path = [] }
      ∷ [];
  has_networks = true;
  has_routes = false;
  hostname = codes "box";
  has_mask_paths = false;
  has_readonly_paths = false;
  process_label = [];
  uid_mappings = some (record { container_id = 0; host_id = 100000; size = 1000 } ∷ []);
  gid_mappings = none;
  cgroups = none;
}

checks_run :
    (network config ≡ ok tt)
    × (hostname_check config ≡ ok tt)
    × (security host config ≡ ok tt)
    × (usernamespace host config ≡ ok tt)
unfolding network hostname_check security usernamespace contains index path_of path_at
checks_run = (refl, refl, refl, refl)
