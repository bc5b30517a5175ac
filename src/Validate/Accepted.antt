-- ===== src/Validate/Accepted.antt =====
-- What a configuration that passes the checks of configs/validate has.
use libcontainer.Prelude.{
  Bool, true, false, ◌&&◌, ◌||◌, not, [], ◌≡◌, if◌then◌else◌, bytes_eq, ok, arith,
}
use libcontainer.Namespaces.{contains, path_of, new_user}
use libcontainer.Validate.{Config, Host, Error, fails_if, usernamespace, is_set}

passed : (b : Bool) (e : Error) → fails_if b e ≡ ok tt → b ≡ false
passed b e h = ground arith

-- A configuration that passes the check of user namespaces has a user namespace, the host has them
-- and there is a path or a mapping, or it has no user namespace and no mapping.
usernamespace_accepted :
    (h : Host) (c : Config)
    → usernamespace h c ≡ ok tt
    → (if contains c.namespaces new_user
        then h.has_user_namespaces
          && (not (bytes_eq (path_of c.namespaces new_user) [])
              || (is_set c.uid_mappings || is_set c.gid_mappings))
        else not (is_set c.uid_mappings || is_set c.gid_mappings))
      ≡ true
unfolding usernamespace
usernamespace_accepted h c u = ground (arith)
