-- ===== src/Tests/Users.antt =====
-- Users and groups at concrete inputs.
use libcontainer.Prelude.{Bool, true, false, [], ◌∷◌, some, none, ◌≡◌, refl, ok, err}
use libcontainer.Prelude.Int.{pos, ltb_ℤ}
use libcontainer.Text.{Reader, syntax, codes, parse_int, format_int, split_from, trim_space}
use libcontainer.Users.{
  User, Group, ChunkReader, ExecUser, no_group_entries, parse_file, parse_user, scan_lines,
  parse_group_filter, scan_groups, take_group, parse_group,
}
use libcontainer.Users.Exec.{
  exec_user, get_exec_user, start_user, apply_users, apply_groups, find_groups, user_matches,
  group_matches,
}
use libcontainer.Users.Additional.{is_asked, find_new, add_groups}
use libcontainer.Users.Asked.{add_groups_answer, add_groups_twice, IsDistinct, Answered}

abbrev passwd_file : Reader
passwd_file = record {
  lines = codes "root:x:0:0:root:/root:/bin/bash" ∷ [] ∷ codes "1000:x:7:8::/home/odd:/bin/sh" ∷ [];
  fails = false;
}

abbrev group_file : ChunkReader
group_file = record {
  chunks =
      (codes "# groups", false)
      ∷ (codes "whe", true)
      ∷ (codes "el:x:10:root", false)
      ∷ (codes "adm:x:4:root,adm", false)
      ∷ [];
  fails = false;
}

abbrev root_user : ExecUser
root_user = record { uid = pos 0; gid = pos 0; sgids = pos 10 ∷ pos 4 ∷ []; home = codes "/root" }

root_run : get_exec_user (codes "root") none (some passwd_file) (some group_file) ≡ ok root_user
unfolding get_exec_user find_groups apply_users apply_groups user_matches group_matches parse_file
    scan_lines parse_user parse_group_filter scan_groups take_group parse_group trim_space
    split_from parse_int
root_run = refl

abbrev numbered_user : ExecUser
numbered_user = record { uid = pos 1000; gid = pos 20; sgids = []; home = [] }

numbered_run :
    exec_user (codes "1000") (codes "20") (start_user none) (some passwd_file) (some group_file)
    ≡ ok numbered_user
unfolding exec_user find_groups apply_users apply_groups user_matches group_matches parse_file
    scan_lines parse_user parse_group_filter scan_groups take_group parse_group trim_space
    split_from parse_int
numbered_run = refl

number_run :
    (parse_int 64 (codes "1000") ≡ ok (pos 1000)) × (parse_int 64 (codes "20") ≡ ok (pos 20))
unfolding parse_int
number_run = (refl, refl)

abbrev is_low : User → Bool
is_low u = ltb_ℤ u.uid (pos 1000)

abbrev wheel : Group
wheel = record { name = codes "wheel"; pass = codes "x"; gid = pos 10; list = codes "root" ∷ [] }

asked_run : add_groups (wheel ∷ []) [] (codes "wheel" ∷ codes "77" ∷ []) ≡ ok (pos 10 ∷ pos 77 ∷ [])
unfolding add_groups is_asked parse_int format_int
asked_run = refl

add_groups_answer_example :
    IsDistinct (pos 10 ∷ pos 77 ∷ [])
    × Answered (wheel ∷ []) (codes "wheel" ∷ codes "77" ∷ []) (pos 10 ∷ pos 77 ∷ [])
add_groups_answer_example =
    add_groups_answer (wheel ∷ []) (codes "wheel" ∷ codes "77" ∷ []) (pos 10 ∷ pos 77 ∷ [])
      asked_run

add_groups_twice_example :
    (add_groups (wheel ∷ []) [] (codes "wheel" ∷ []) ≡ ok (pos 10 ∷ []))
    × (add_groups (wheel ∷ []) [] (codes "wheel" ∷ codes "wheel" ∷ []) ≡ err no_group_entries)
unfolding find_new is_asked parse_int
add_groups_twice_example =
    add_groups_twice (wheel ∷ []) (codes "wheel") (pos 10) syntax refl refl ((λ h. refl), tt)
