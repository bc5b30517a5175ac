-- ===== src/Users/Additional.antt =====
-- `GetAdditionalGroups` of user/user.go. The keys of the map `gidMap` are a list in the order of
-- insertion; Go returns them in no set order.
use libcontainer.Prelude.{
  Bool, ◌&&◌, ◌||◌, not, List, [], ◌∷◌, ◌++◌, Option, none, some, if◌then◌else◌, bytes_eq, Result,
  ok, ◌>>=◌, any,
}
use libcontainer.Prelude.Int.{ℤ, eq_ℤ}
use libcontainer.Text.{Bytes, parse_int, format_int}
use libcontainer.Users.{Group, ChunkReader, Error, no_group_entries, parse_group_filter}
use libcontainer.Users.Exec.{numeric_id}

-- `g.Name == ag || strconv.Itoa(g.Gid) == ag`
unfoldable pub is_asked : Bytes → Group → Bool
is_asked ag g = bytes_eq g.name ag || bytes_eq (format_int g.gid) ag

abbrev pub contains : List ℤ → ℤ → Bool
contains gids gid = any (eq_ℤ gid) gids

-- the loop over the groups: the first match whose gid is not in the map
unfoldable pub find_new : List ℤ → Bytes → List Group → Option ℤ
find_new gids ag [] = none
find_new gids ag (g ∷ gs) =
    let rest = find_new gids ag gs in
    if is_asked ag g && not (contains gids g.gid) then some g.gid else rest

-- a write of a key to the map
abbrev pub insert_gid : List ℤ → ℤ → List ℤ
insert_gid gids gid = if contains gids gid then gids else gids ++ gid ∷ []

unfoldable pub add_group : List Group → List ℤ → Bytes → Result Error (List ℤ)
unfolding find_new
add_group groups gids ag = elim (find_new gids ag groups) [
  | some gid ↦ ok (gids ++ gid ∷ [])
  | none ↦ numeric_id no_group_entries (parse_int 64 ag) >>= λ n. ok (insert_gid gids n)
]

unfoldable pub add_groups : List Group → List ℤ → List Bytes → Result Error (List ℤ)
unfolding add_group
add_groups groups gids [] = ok gids
add_groups groups gids (ag ∷ ags) = do gids' ← add_group groups gids ag; add_groups groups gids' ags

unfoldable pub get_additional_groups : List Bytes → Option ChunkReader → Result Error (List ℤ)
get_additional_groups ags none = add_groups [] [] ags
get_additional_groups ags (some r) = do
  groups ← parse_group_filter (some r) (some (λ g. any (λ ag. is_asked ag g) ags))
  add_groups groups [] ags
