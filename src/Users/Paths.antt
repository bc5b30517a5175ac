-- ===== src/Users/Paths.antt =====
-- The functions of user/user.go that open a file by its path, and those that take no filter. What
-- opening a file gives is an argument.
use libcontainer.Prelude.{Bool, List, Option, none, some, Result, ok, err}
use libcontainer.Prelude.Int.{ℤ}
use libcontainer.Text.{Bytes, Reader}
use libcontainer.Users.{
  User, Group, SubId, IdMap, ExecUser, ChunkReader, Error, parse_passwd_filter, parse_group_filter,
  parse_sub_id_filter, parse_id_map_filter,
}
use libcontainer.Users.Exec.{get_exec_user}
use libcontainer.Users.Additional.{get_additional_groups}

-- open the file, then parse it
abbrev opened : {R A : Type 0} → (Option R → Result Error A) → Result Error R → Result Error A
opened parse (err e) = err e
opened parse (ok r) = parse (some r)

-- a file that cannot be opened is a nil reader
abbrev reader_or_nil : {R : Type 0} → Result Error R → Option R
reader_or_nil (err e) = none
reader_or_nil (ok r) = some r

abbrev pub parse_passwd : Option Reader → Result Error (List User)
parse_passwd r = parse_passwd_filter r none

abbrev pub parse_passwd_file : Result Error Reader → Result Error (List User)
parse_passwd_file = opened parse_passwd

abbrev pub parse_passwd_file_filter :
    Result Error Reader → Option (User → Bool) → Result Error (List User)
parse_passwd_file_filter file filter = opened (λ r. parse_passwd_filter r filter) file

abbrev pub parse_group : Option ChunkReader → Result Error (List Group)
parse_group r = parse_group_filter r none

abbrev pub parse_group_file : Result Error ChunkReader → Result Error (List Group)
parse_group_file = opened parse_group

abbrev pub parse_group_file_filter :
    Result Error ChunkReader → Option (Group → Bool) → Result Error (List Group)
parse_group_file_filter file filter = opened (λ r. parse_group_filter r filter) file

abbrev pub parse_sub_id : Option Reader → Result Error (List SubId)
parse_sub_id r = parse_sub_id_filter r none

abbrev pub parse_sub_id_file : Result Error Reader → Result Error (List SubId)
parse_sub_id_file = opened parse_sub_id

abbrev pub parse_sub_id_file_filter :
    Result Error Reader → Option (SubId → Bool) → Result Error (List SubId)
parse_sub_id_file_filter file filter = opened (λ r. parse_sub_id_filter r filter) file

abbrev pub parse_id_map : Option Reader → Result Error (List IdMap)
parse_id_map r = parse_id_map_filter r none

abbrev pub parse_id_map_file : Result Error Reader → Result Error (List IdMap)
parse_id_map_file = opened parse_id_map

abbrev pub parse_id_map_file_filter :
    Result Error Reader → Option (IdMap → Bool) → Result Error (List IdMap)
parse_id_map_file_filter file filter = opened (λ r. parse_id_map_filter r filter) file

abbrev pub get_exec_user_path :
    Bytes → Option ExecUser → Result Error Reader → Result Error ChunkReader → Result Error ExecUser
get_exec_user_path spec defaults passwd group =
    get_exec_user spec defaults (reader_or_nil passwd) (reader_or_nil group)

abbrev pub get_additional_groups_path :
    List Bytes → Result Error ChunkReader → Result Error (List ℤ)
get_additional_groups_path ags group = get_additional_groups ags (reader_or_nil group)
