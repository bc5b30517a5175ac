-- ===== src/Tests/Fscommon.antt =====
-- The numbers and lines of a control group's files at concrete inputs.
use libcontainer.Prelude.{◌-◌, ◌^◌, List, [], ◌∷◌, ◌≡◌, refl, arith, ok, err, All}
use libcontainer.Prelude.Int.{negsuc}
use libcontainer.Text.{codes, split_from, trim_space, parse_int}
use libcontainer.Fscommon.{
  parse_key_value, get_value_by_key, get_cgroup_param_uint, get_cgroup_param_int, not_key_value,
}
use libcontainer.Fscommon.Numbers.{
  Entry, IsEntry, write_file, first_value, get_value_by_key-write_file,
}

abbrev stat : List Entry
stat =
    record { key = codes "cache"; value = 4096 } ∷ record { key = codes "rss"; value = 12288 } ∷ []

stat-IsEntry : All IsEntry stat
stat-IsEntry = (
  record {
    no_space = (refl, (refl, (refl, (refl, (refl, tt)))));
    no_newline = (refl, (refl, (refl, (refl, (refl, tt)))));
    bound = omega arith;
  },
  (
    record {
      no_space = (refl, (refl, (refl, tt)));
      no_newline = (refl, (refl, (refl, tt)));
      bound = omega arith;
    },
    tt,
  ),
)

get_value_by_key-write_file_example :
    get_value_by_key (ok (write_file stat)) (codes "rss") ≡ ok (first_value stat (codes "rss"))
get_value_by_key-write_file_example = get_value_by_key-write_file stat (codes "rss") stat-IsEntry

runs :
    (get_cgroup_param_uint (ok (codes "max\n")) ≡ ok (2 ^ 64 - 1))
    × (get_cgroup_param_int (ok (codes "-3\n")) ≡ ok (negsuc 2))
    × (parse_key_value (codes "a b c") ≡ err not_key_value)
unfolding get_cgroup_param_uint get_cgroup_param_int parse_key_value split_from trim_space parse_int
runs = (refl, refl, refl)
