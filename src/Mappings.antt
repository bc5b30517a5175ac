-- ===== src/Mappings.antt =====
-- configs/config_linux.go: ids of a container and of the host. An int64 or int is its 64 bits, a
-- number below 2 ^ 64, with the wrap-around of sums and the signed comparison written out.
pub mod Translation
use libcontainer.Prelude.{
  ℕ, ◌+◌, ◌-◌, ◌%◌, ◌^◌, Bool, true, false, ◌&&◌, not, List, [], ◌∷◌, Option, none, some, ltb,
  if◌then◌else◌, Result, ok, err,
}
use libcontainer.Namespaces.{Namespace, contains, new_user}

pub record IdMapping : Type 0 where
  pub container_id : ℕ
  pub host_id : ℕ
  pub size : ℕ

-- what `Config` holds of use here; `none` is a nil slice
pub record Config : Type 0 where
  pub namespaces : List Namespace
  pub uid_mappings : Option (List IdMapping)
  pub gid_mappings : Option (List IdMapping)

pub data Error : Type 0 where
  no_uid_map no_user_map no_gid_map no_group_map too_large : Error

abbrev pub add_i64 : ℕ → ℕ → ℕ
add_i64 a b = (a + b) % 2 ^ 64

abbrev pub sub_i64 : ℕ → ℕ → ℕ
sub_i64 a b = (a + 2 ^ 64 - b) % 2 ^ 64

-- `a < b` of int64: the order of the bits with the sign bit turned round
abbrev pub less_i64 : ℕ → ℕ → Bool
less_i64 a b = ltb ((a + 2 ^ 63) % 2 ^ 64) ((b + 2 ^ 63) % 2 ^ 64)

abbrev pub covers : IdMapping → ℕ → Bool
covers m id =
    not (less_i64 id m.container_id)
    && not (less_i64 (sub_i64 (add_i64 m.container_id m.size) 1) id)

-- `hostIDFromMapping`, with `none` where the code has -1 and false
unfoldable pub host_id_from_mapping : ℕ → List IdMapping → Option ℕ
host_id_from_mapping id [] = none
host_id_from_mapping id (m ∷ ms) =
    let rest = host_id_from_mapping id ms in
    if covers m id then some (add_i64 m.host_id (sub_i64 id m.container_id)) else rest

-- the checks of `HostUID` and `HostGID` on what was found
abbrev pub checked_id : Error → Option ℕ → Result Error ℕ
checked_id no_entry none = err no_entry
checked_id no_entry (some host) = if less_i64 (2 ^ 63 - 1) host then err too_large else ok host

-- `HostUID` and `HostGID` where there is a user namespace
abbrev pub mapped_id : Error → Error → ℕ → Option (List IdMapping) → Result Error ℕ
mapped_id no_map no_entry id none = err no_map
mapped_id no_map no_entry id (some ms) = checked_id no_entry (host_id_from_mapping id ms)

unfoldable pub host_uid : Config → ℕ → Result Error ℕ
host_uid c id =
    if contains c.namespaces new_user
    then mapped_id no_uid_map no_user_map id c.uid_mappings
    else ok id

unfoldable pub host_gid : Config → ℕ → Result Error ℕ
host_gid c id =
    if contains c.namespaces new_user
    then mapped_id no_gid_map no_group_map id c.gid_mappings
    else ok id

abbrev pub host_root_uid : Config → Result Error ℕ
host_root_uid c = host_uid c 0

abbrev pub host_root_gid : Config → Result Error ℕ
host_root_gid c = host_gid c 0
