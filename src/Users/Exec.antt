-- ===== src/Users/Exec.antt =====
-- `GetExecUser` of user/user.go.
use libcontainer.Prelude.{
  ◌-◌, ◌^◌, Bool, true, ◌||◌, not, List, [], ◌∷◌, Option, none, some, ltb, if◌then◌else◌, bytes_eq,
  Result, ok, err, ◌>>=◌, any, map,
}
use libcontainer.Prelude.Int.{ℤ, pos, negsuc, eq_ℤ}
use libcontainer.Text.{Bytes, Reader, NumError, parse_int, split}
use libcontainer.Users.{
  User, Group, ExecUser, ChunkReader, Error, no_passwd_entries, no_group_entries, out_of_range,
  string_part, parse_passwd_filter, parse_group_filter,
}

-- `id < minID || id > maxID`
abbrev pub id_out_of_range : ℤ → Bool
id_out_of_range (pos n) = ltb (2 ^ 31 - 1) n
id_out_of_range (negsuc n) = true

-- the filter on users
unfoldable pub user_matches : ExecUser → Bytes → Result NumError ℤ → User → Bool
user_matches user user_arg (ok uid_arg) u =
    if bytes_eq user_arg [] then eq_ℤ u.uid user.uid else eq_ℤ uid_arg u.uid
user_matches user user_arg (err _) u =
    if bytes_eq user_arg [] then eq_ℤ u.uid user.uid else bytes_eq u.name user_arg

-- the filter on groups
unfoldable pub group_matches : Bytes → Bytes → Result NumError ℤ → Group → Bool
group_matches matched_name group_arg (ok gid_arg) g =
    if bytes_eq group_arg [] then any (λ u. bytes_eq u matched_name) g.list else eq_ℤ gid_arg g.gid
group_matches matched_name group_arg (err _) g =
    if bytes_eq group_arg []
    then any (λ u. bytes_eq u matched_name) g.list
    else bytes_eq g.name group_arg

-- An error of a reader counts only if there is a reader.
abbrev pub unless_nil {ℓ κ} :
    {R : Type ℓ} {A : Type κ} → Option R → Result Error (List A) → Result Error (List A)
unless_nil r (ok xs) = ok xs
unless_nil none (err e) = ok []
unless_nil (some r) (err e) = err e

-- a number that is taken as it is, if it is in range
abbrev pub numeric_id : Error → Result NumError ℤ → Result Error ℤ
numeric_id missing (ok n) = if id_out_of_range n then err out_of_range else ok n
numeric_id missing (err _) = err missing

-- the user that the passwd entries give, and the name that matched
unfoldable pub apply_users :
    ExecUser → Bytes → Result NumError ℤ → List User → Result Error (ExecUser × Bytes)
apply_users user user_arg uid (u ∷ us) =
    ok (record user { uid = u.uid; gid = u.gid; home = u.home }, u.name)
apply_users user user_arg uid [] =
    if bytes_eq user_arg []
    then ok (user, [])
    else numeric_id no_passwd_entries uid >>= λ n. ok (record user { uid = n }, [])

-- the explicit group, or the supplementary groups
unfoldable pub apply_groups :
    ExecUser → Bytes → Result NumError ℤ → List Group → Result Error ExecUser
apply_groups user group_arg gid [] =
    if bytes_eq group_arg []
    then ok user
    else numeric_id no_group_entries gid >>= λ n. ok (record user { gid = n })
apply_groups user group_arg gid (g ∷ gs) =
    if bytes_eq group_arg []
    then ok (record user { sgids = map (λ h. h.gid) (g ∷ gs) })
    else ok (record user { gid = g.gid })

unfoldable pub find_groups : Option ChunkReader → ExecUser → Bytes → Bytes → Result Error ExecUser
find_groups group user matched_name group_arg =
    let gid = parse_int 64 group_arg in
    if not (bytes_eq group_arg []) || not (bytes_eq matched_name [])
    then unless_nil group
        (parse_group_filter group (some (group_matches matched_name group_arg gid)))
      >>= apply_groups user group_arg gid
    else ok user

-- `defaults`, or a new ExecUser; a nil list of groups is the empty one
abbrev pub start_user : Option ExecUser → ExecUser
start_user none = record { uid = pos 0; gid = pos 0; sgids = []; home = [] }
start_user (some d) = d

-- `GetExecUser` after the specification is split
unfoldable pub exec_user :
    Bytes → Bytes → ExecUser → Option Reader → Option ChunkReader → Result Error ExecUser
exec_user user_arg group_arg user passwd group = do
  let uid = parse_int 64 user_arg
  users ← unless_nil passwd (parse_passwd_filter passwd (some (user_matches user user_arg uid)))
  found ← apply_users user user_arg uid users
  find_groups group found.0 found.1 group_arg

unfoldable pub get_exec_user :
    Bytes → Option ExecUser → Option Reader → Option ChunkReader → Result Error ExecUser
unfolding exec_user
get_exec_user spec defaults passwd group =
    let ps = split spec b':' in
    exec_user (string_part ps 0) (string_part ps 1) (start_user defaults) passwd group
