-- ===== src/Tests/Cgroups.antt =====
-- The removal of control groups, and the files that list them, at concrete inputs.
use libcontainer.Prelude.{
  ℕ, zero, suc, Bool, true, false, not, List, [], ◌∷◌, some, ◌==◌, ◌≡◌, refl, arith, map, All, ok,
  err, if◌then◌else◌,
}
use libcontainer.Prelude.Int.{pos}
use libcontainer.Text.{
  Bytes, codes, fields_from, parse_int, parse_uint, format_uint, trim_suffix, has_prefix,
}
use libcontainer.Cgroups.{
  Group, group, no_children, child, Kernel, remove_path, remove_paths, write_cgroup_proc,
  write_tries, written, invalid_argument, still_invalid,
}
use libcontainer.Cgroups.Removal.{IsRemoval, remove_path-IsRemoval, remove_paths-idle}
use libcontainer.Cgroups.Listing.{
  Assignments, lookup, parse_cgroup_from_reader, enabled_subsystems,
  get_huge_page_size_from_filenames,
}
use libcontainer.Cgroups.Listing.Entries.{
  Entry, IsEntry, IsName, line, path_of, parse_cgroup_from_reader-entries,
}

abbrev rmdir_of : (ℕ → Bool) → Group → Bool
rmdir_of busy (group i no_children) = not (busy i)
rmdir_of busy (group i (child g gs)) = false

abbrev kernel : (ℕ → Bool) → Kernel
kernel busy = record {
  busy = busy;
  rmdir = rmdir_of busy;
  rmdir_leaf = λ i. refl;
  rmdir_parent = λ i g gs. refl;
}

-- a group with two children, the second of which is busy
abbrev parent : Group
parent = group 0 (child (group 1 no_children) (child (group 2 no_children) no_children))

abbrev second_busy : ℕ → Bool
second_busy i = i == 2

removal_run :
    remove_path (kernel second_busy) parent
    ≡ record { left = some (group 0 (child (group 2 no_children) no_children)); good = false }
unfolding remove_path
removal_run = refl

remove_path-IsRemoval_example :
    IsRemoval second_busy parent (remove_path (kernel second_busy) parent)
remove_path-IsRemoval_example = remove_path-IsRemoval (kernel second_busy) parent

-- The process leaves its group before the second round.
abbrev leaving : ℕ → Kernel
leaving zero = kernel second_busy
leaving (suc n) = kernel (λ i. false)

remove_paths-idle_example : remove_paths leaving ((codes "cpu", parent) ∷ []) ≡ ok tt
remove_paths-idle_example =
    remove_paths-idle leaving ((codes "cpu", parent) ∷ []) 1 (omega arith) (λ i. refl)

abbrev entries : List Entry
entries =
    record {
      hierarchy = codes "4";
      subsystem = codes "cpu";
      more = codes "cpuacct" ∷ [];
      path = codes "/a:b";
    }
    ∷ record { hierarchy = codes "0"; subsystem = []; more = []; path = codes "/u" }
    ∷ []

cpu-IsName : IsName (codes "cpu")
cpu-IsName = record { no_comma = (refl, (refl, (refl, tt))); no_colon = (refl, (refl, (refl, tt))) }

cpuacct-IsName : IsName (codes "cpuacct")
cpuacct-IsName = record {
  no_comma = (refl, (refl, (refl, (refl, (refl, (refl, (refl, tt)))))));
  no_colon = (refl, (refl, (refl, (refl, (refl, (refl, (refl, tt)))))));
}

unnamed-IsName : IsName []
unnamed-IsName = record { no_comma = tt; no_colon = tt }

entries-IsEntry : All IsEntry entries
entries-IsEntry = (
  record { hierarchy = (refl, tt); subsystem = cpu-IsName; more = (cpuacct-IsName, tt) },
  (record { hierarchy = (refl, tt); subsystem = unnamed-IsName; more = tt }, tt),
)

parse_cgroup_from_reader-entries_example :
    (m : Assignments) × (parse_cgroup_from_reader
        (record { lines = map line entries; fails = false })
      ≡ ok m)
    × ((k : Bytes) → lookup k m ≡ path_of k entries)
parse_cgroup_from_reader-entries_example = parse_cgroup_from_reader-entries entries entries-IsEntry

page_sizes :
    get_huge_page_size_from_filenames
      (codes "hugepages-2048kB" ∷ codes "other" ∷ codes "hugepages-64kB" ∷ codes "hugepages-8" ∷ [])
    ≡ record { sizes = codes "2MB" ∷ codes "64KB" ∷ []; warn = some (codes "hugepages-8") }
unfolding get_huge_page_size_from_filenames trim_suffix parse_int parse_uint format_uint has_prefix
page_sizes = refl

subsystems :
    enabled_subsystems (codes "#name" ∷ codes "cpu 1 2 1" ∷ codes "rdma 3 1 0" ∷ [])
    ≡ some (codes "cpu" ∷ [])
unfolding enabled_subsystems fields_from
subsystems = refl

-- Five writes are tried.
process_written :
    write_cgroup_proc (codes "/g") (pos 7) true (λ i. if i == 4 then written else invalid_argument)
    ≡ ok tt
unfolding write_cgroup_proc write_tries
process_written = refl

process_refused :
    write_cgroup_proc (codes "/g") (pos 7) true (λ i. if i == 5 then written else invalid_argument)
    ≡ err still_invalid
unfolding write_cgroup_proc write_tries
process_refused = refl
