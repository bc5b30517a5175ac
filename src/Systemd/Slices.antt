-- ===== src/Systemd/Slices.antt =====
-- `ExpandSlice`, `getUnitName` and `getUnitType` of cgroups/systemd/common.go.
pub mod Nested
use libcontainer.Prelude.{
  ℕ, Bool, true, false, ◌||◌, not, List, [], ◌∷◌, ◌++◌, any, ◌==◌, ltb, length, bytes_eq,
  if◌then◌else◌, Option, none, some,
}
use libcontainer.Text.{Bytes, codes, split}
use libcontainer.Text.{trim_suffix}

abbrev pub slice_suffix : Bytes
slice_suffix = codes ".slice"

-- `strings.HasSuffix` by a suffix that is not empty: it is there if it can be trimmed
abbrev pub has_suffix : Bytes → Bytes → Bool
has_suffix s suffix = ltb (length (trim_suffix s suffix)) (length s)

-- the loop over the components, on the path and the prefix so far; `none` is the error
unfoldable pub expand_components : List Bytes → Bytes → Bytes → Option Bytes
expand_components [] path prefix = some path
expand_components (component ∷ rest) path prefix =
    if bytes_eq component []
    then none
    else expand_components rest (path ++ (codes "/" ++ (prefix ++ (component ++ slice_suffix))))
        (prefix ++ (component ++ codes "-"))

-- `ExpandSlice`
unfoldable pub expand_slice : Bytes → Option Bytes
expand_slice slice =
    let slice_name = trim_suffix slice slice_suffix in
    let expanded = expand_components (split slice_name b'-') [] [] in
    if ltb (length slice) (length slice_suffix) || not (has_suffix slice slice_suffix)
    then none
    else if any (λ c. c == b'/') slice
    then none
    else if bytes_eq slice_name (codes "-")
    then some (codes "/")
    else expanded

-- `getUnitName`, with `c.Name` and `c.ScopePrefix`
unfoldable pub get_unit_name : Bytes → Bytes → Bytes
get_unit_name name scope_prefix =
    if not (has_suffix name slice_suffix)
    then scope_prefix ++ (codes "-" ++ (name ++ codes ".scope"))
    else name

-- `getUnitType`
unfoldable pub get_unit_type : Bytes → Bytes
get_unit_type unit_name = if has_suffix unit_name slice_suffix then codes "Slice" else codes "Scope"
