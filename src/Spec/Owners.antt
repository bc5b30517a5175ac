-- ===== src/Spec/Owners.antt =====
-- `setupUserNamespace` of specconv/spec_linux.go and `IsSameMapping` of
-- userns/userns_maps_linux.go. What the kernel's files say of a user namespace is an argument.
pub mod Roots
use libcontainer.Prelude.{
  ℕ, ◌%◌, ◌^◌, Bool, true, false, ◌&&◌, ◌||◌, not, ◌==◌, List, [], ◌∷◌, ◌++◌, Option, none, some,
  if◌then◌else◌, bytes_eq, Result, ok, err, ◌>>=◌,
}
use libcontainer.Text.{Bytes}
use libcontainer.Namespaces.{path_of, new_user}
use libcontainer.Mappings.{IdMapping, Config, host_root_uid, host_root_gid}
use libcontainer.Spec.{
  Error, unreadable_mappings, other_mappings, no_root_uid, no_root_gid, Heap, load, store, Linux,
}

-- two slices of mappings, with `none` for nil
pub record Maps : Type 0 where
  pub uids : Option (List IdMapping)
  pub gids : Option (List IdMapping)

abbrev pub mapping_eq : IdMapping → IdMapping → Bool
mapping_eq a b = a.container_id == b.container_id && (a.host_id == b.host_id && a.size == b.size)

-- `IsSameMapping` on slices that are not nil: the lengths, then the items
unfoldable pub same_items : List IdMapping → List IdMapping → Bool
same_items [] [] = true
same_items (a ∷ xs) (b ∷ ys) = mapping_eq a b && same_items xs ys
same_items _ _ = false

abbrev pub items : Option (List IdMapping) → List IdMapping
items none = []
items (some ms) = ms

abbrev pub is_same_mapping : Option (List IdMapping) → Option (List IdMapping) → Bool
is_same_mapping a b = same_items (items a) (items b)

-- Go's `append` of each of some mappings, which leaves nil if there is none
unfoldable pub append_mappings : Option (List IdMapping) → List IdMapping → Option (List IdMapping)
append_mappings old [] = old
append_mappings none (m ∷ ms) = some (m ∷ ms)
append_mappings (some old) (m ∷ ms) = some (old ++ m ∷ ms)

abbrev pub is_set : Option (List IdMapping) → Bool
is_set none = false
is_set (some ms) = true

unfoldable pub with_spec_mappings : Option Linux → Config → Config
with_spec_mappings none c = c
with_spec_mappings (some l) c = record c {
  uid_mappings = append_mappings c.uid_mappings l.uid_mappings;
  gid_mappings = append_mappings c.gid_mappings l.gid_mappings;
}

-- the part under the path of a user namespace to join, with the mappings that it has
unfoldable pub joined : Config → Option Maps → Result Error Config
joined c none = err unreadable_mappings
joined c (some maps) =
    if (is_set c.uid_mappings || is_set c.gid_mappings)
      && (not (is_same_mapping maps.uids c.uid_mappings)
          || not (is_same_mapping maps.gids c.gid_mappings))
    then err other_mappings
    else ok (record c { uid_mappings = maps.uids; gid_mappings = maps.gids })

unfoldable pub set_owner : Heap → ℕ → ℕ → ℕ → Heap
set_owner h p uid gid = store h p (record (load h p) { uid = uid % 2 ^ 32; gid = gid % 2 ^ 32 })

unfoldable pub set_owners : Heap → List ℕ → ℕ → ℕ → Heap
set_owners h [] uid gid = h
set_owners h (p ∷ ps) uid gid = set_owners (set_owner h p uid gid) ps uid gid

abbrev pub or_error {ℓ κ} : {F : Type ℓ} {A : Type κ} → Error → Result F A → Result Error A
or_error e (err _) = err e
or_error e (ok a) = ok a

-- the configuration and the device objects after the call; `maps_of` reads a namespace's mappings
unfoldable pub setup_user_namespace :
    (Bytes → Option Maps) → Option Linux → Config → Heap → List ℕ → Result Error (Config × Heap)
unfolding joined set_owners
setup_user_namespace maps_of l c h nodes =
    let with_spec = with_spec_mappings l c in
    let path = path_of with_spec.namespaces new_user in
    do
      c' ← if bytes_eq path [] then ok with_spec else joined with_spec (maps_of path)
      uid ← or_error no_root_uid (host_root_uid c')
      gid ← or_error no_root_gid (host_root_gid c')
      ok (c', set_owners h nodes uid gid)
